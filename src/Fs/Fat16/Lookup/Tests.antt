-- ===== src/Fs/Fat16/Lookup/Tests.antt =====
-- A root directory with the file HELLO.TXT and, behind it, the file EIGHTLET.TXT.
use cos.Prelude.{ℕ, ◌≡◌, refl, arith, none, ok, err, eio, List, [], ◌∷◌, ◌++◌, replicate, done, pos}
use cos.Strings.{tolower}
use cos.Strings.Copy.{IsText}
use cos.Fs.File.{mode_read}
use cos.Fs.Fat16.Private.{FatPrivate}
use cos.Fs.Fat16.Names.{dot, fat16_get_full_relative_filename, fat16_to_proper_string, extension}
use cos.Fs.Fat16.Names.Format.{IsName, item_bytes, fat16_get_full_relative_filename-with_extension}
use cos.Fs.Fat16.Descriptor.{file_item}
use cos.Fs.Fat16.Directory.{is_subdirectory}
use cos.Fs.Fat16.Lookup.{fat16_open}
use cos.Fs.Fat16.Lookup.Find.{
  AreFiles, SameName, NoneSame, fat16_open-last_match, fat16_open-no_match,
}

abbrev hello : List ℕ
hello = 72 ∷ 69 ∷ 76 ∷ 76 ∷ 79 ∷ []

abbrev txt : List ℕ
txt = 84 ∷ 88 ∷ 84 ∷ []

abbrev spaces : ℕ → List ℕ
spaces n = replicate n 32

IsName-hello : IsName hello
IsName-hello = (
  λ e. absurd (omega arith),
  λ e. absurd (omega arith),
  (
    λ e. absurd (omega arith),
    λ e. absurd (omega arith),
    (
      λ e. absurd (omega arith),
      λ e. absurd (omega arith),
      (
        λ e. absurd (omega arith),
        λ e. absurd (omega arith),
        (λ e. absurd (omega arith), λ e. absurd (omega arith), tt),
      ),
    ),
  ),
)

IsName-txt : IsName txt
IsName-txt = (
  λ e. absurd (omega arith),
  λ e. absurd (omega arith),
  (
    λ e. absurd (omega arith),
    λ e. absurd (omega arith),
    (λ e. absurd (omega arith), λ e. absurd (omega arith), tt),
  ),
)

-- The attribute is 0x20, a space.
fat16_get_full_relative_filename-with_extension_test :
    fat16_get_full_relative_filename (item_bytes hello (spaces 2) txt (replicate 20 0)) 108
    ≡ done (hello ++ (dot ∷ txt ++ replicate 99 0))
fat16_get_full_relative_filename-with_extension_test =
    fat16_get_full_relative_filename-with_extension hello (spaces 2) txt (replicate 20 0)
      IsName-hello refl 108 IsName-txt (omega arith)

abbrev eightlet : List ℕ
eightlet = 69 ∷ 73 ∷ 71 ∷ 72 ∷ 84 ∷ 76 ∷ 69 ∷ 84 ∷ []

-- A name that fills its field runs on into the extension.
eight_letters :
    fat16_get_full_relative_filename (eightlet ++ txt ++ replicate 21 32) 108
    ≡ done (eightlet ++ txt ++ (dot ∷ txt ++ replicate 93 0))
unfolding fat16_get_full_relative_filename fat16_to_proper_string extension
eight_letters = refl

abbrev private : FatPrivate
private = record {
  header = replicate 62 0;
  root_directory = record {
    item =
        (hello ++ spaces 3 ++ txt ++ (32 ∷ replicate 20 0))
        ++ (eightlet ++ txt ++ (32 ∷ replicate 20 0));
    total = pos 2;
    sector_pos = 0;
    ending_sector_pos = 0;
  };
  cluster_read_stream = none;
  fat_read_stream = none;
  directory_stream = none;
}

-- hello.txt.
abbrev part : List ℕ
part = 104 ∷ 101 ∷ 108 ∷ 108 ∷ 111 ∷ 46 ∷ 116 ∷ 120 ∷ 116 ∷ []

-- HELLO.TXT, and the name that runs on.
abbrev first_name : List ℕ
first_name = hello ++ (dot ∷ txt)

abbrev second_name : List ℕ
second_name = eightlet ++ txt ++ (dot ∷ txt)

names-AreFiles : AreFiles (first_name ∷ second_name ∷ []) private.root_directory.item
unfolding is_subdirectory fat16_get_full_relative_filename fat16_to_proper_string extension
names-AreFiles = (
  refl,
  (
    omega arith,
    (
      omega arith,
      (
        omega arith,
        (
          omega arith,
          (omega arith, (omega arith, (omega arith, (omega arith, (omega arith, tt))))),
        ),
      ),
    ),
  ),
  (_, refl),
  (
    refl,
    (
      omega arith,
      (
        omega arith,
        (
          omega arith,
          (
            omega arith,
            (
              omega arith,
              (
                omega arith,
                (
                  omega arith,
                  (
                    omega arith,
                    (
                      omega arith,
                      (
                        omega arith,
                        (
                          omega arith,
                          (omega arith, (omega arith, (omega arith, (omega arith, tt)))),
                        ),
                      ),
                    ),
                  ),
                ),
              ),
            ),
          ),
        ),
      ),
    ),
    (_, refl),
    tt,
  ),
)

part-IsText : IsText part
part-IsText = (
  omega arith,
  (
    omega arith,
    (
      omega arith,
      (omega arith, (omega arith, (omega arith, (omega arith, (omega arith, (omega arith, tt)))))),
    ),
  ),
)

part-SameName : SameName first_name part
unfolding tolower
part-SameName = refl

second-other : SameName second_name part → ⊥
unfolding tolower
second-other e = cc

fat16_open-last_match_example :
    fat16_open 1 (λ lba i. 0) private (part ∷ []) mode_read
    ≡ done (
      ok (record {
        item = file_item (hello ++ spaces 3 ++ txt ++ (32 ∷ replicate 20 0));
        position = 0;
      }),
      private,
    )
fat16_open-last_match_example =
    fat16_open-last_match 1 (λ lba i. 0) private part part-IsText (omega arith) []
      (second_name ∷ []) first_name refl names-AreFiles part-SameName (second-other, tt)

abbrev hello_only : List ℕ
hello_only = 104 ∷ 101 ∷ 108 ∷ 108 ∷ 111 ∷ []

hello_only-other : NoneSame (first_name ∷ second_name ∷ []) hello_only
unfolding tolower
hello_only-other = (λ e. cc, (λ e. cc, tt))

fat16_open-no_match_example :
    fat16_open 1 (λ lba i. 0) private (hello_only ∷ []) mode_read ≡ done (err eio, private)
fat16_open-no_match_example =
    fat16_open-no_match 1 (λ lba i. 0) private hello_only
      (omega arith, (omega arith, (omega arith, (omega arith, (omega arith, tt))))) (omega arith)
      (first_name ∷ second_name ∷ []) refl names-AreFiles hello_only-other
