-- ===== src/Fs/PathParser/Tests.antt =====
-- Paths parsed, and the theorems at a path.
use Prim.Native.String.{String}
use Prim.Native.Char.{code}
use cos.Prelude.{ℕ, ◌≡◌, refl, some, List, [], ◌∷◌, ◌++◌, arith, done}
use cos.Strings.{strlen, strnlen, isdigit, tonumericdigit, memcmp}
use cos.Fs.PathParser.{
  PathRoot, pathparser_parse, parse_from, parse_parts, path_get_drive_by_path, path_valid_format,
  is_root_prefix, skip_drive, pathparser_get_path_part, path_part_loop,
}
use cos.Fs.PathParser.Spec.{IsRoot, render, meaning}
use cos.Fs.PathParser.Parse.{parse-meaning}
use cos.Fs.PathParser.RoundTrip.{parse-render}

abbrev codes : String → List ℕ
codes String.[] = []
codes (String.◌∷◌ c s) = code c ∷ codes s

abbrev shell : PathRoot
shell = record { drive_no = 0; parts = codes "bin" ∷ codes "shell.e" ∷ [] }

parse_run : pathparser_parse (codes "0:/bin/shell.e" ++ (0 ∷ [])) ≡ done (some shell)
unfolding pathparser_parse parse_from parse_parts path_get_drive_by_path path_valid_format
    is_root_prefix skip_drive pathparser_get_path_part path_part_loop strlen strnlen isdigit
    tonumericdigit memcmp
parse_run = refl

-- Parts behind an empty one are dropped.
parse_double_slash :
    pathparser_parse (codes "0:/a//b" ++ (0 ∷ []))
    ≡ done (some (record { drive_no = 0; parts = codes "a" ∷ [] }))
unfolding parse_run
parse_double_slash = refl

shell-IsRoot : IsRoot shell
shell-IsRoot = record {
  drive = omega arith;
  parts = (((λ e. cc), omega arith), (((λ e. cc), omega arith), tt));
}

parse-render_example : pathparser_parse (render shell ++ (0 ∷ 7 ∷ [])) ≡ done (some shell)
unfolding render
parse-render_example = parse-render shell (7 ∷ []) shell-IsRoot (omega arith)

parse-meaning_example :
    pathparser_parse (codes "1:/abc/" ++ (0 ∷ [])) ≡ done (meaning (codes "1:/abc/"))
parse-meaning_example = parse-meaning (codes "1:/abc/") [] (omega arith) (omega arith)
