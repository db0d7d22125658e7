-- ===== src/Video/Font/First.antt =====
-- Which font `video_font_get` finds.
use cos.Prelude.{
  ℕ, suc, ◌≡◌, ◌≢◌, refl, sym, ap, ◌∙◌, arith, true, false, some, List, [], ◌∷◌, ◌==◌,
  if◌then◌else◌, done, ℤ,
}
use cos.Strings.{istrncmp}
use cos.Video.Published.{is_equal}
use cos.Video.Font.{Font, Fonts, font_name_size, font_loop, video_font_get, video_font_register}

-- The fonts registered one after the other.
abbrev pub all_registered : Fonts → List ℕ → Fonts
all_registered s [] = s
all_registered s (p ∷ ps) = all_registered (video_font_register s p) ps

abbrev pub Avoids : ℕ → List ℕ → Type 0
Avoids p [] = Unit
Avoids p (q ∷ qs) = (q ≢ p) × Avoids p qs

register-first :
    (s : Fonts) (p : ℕ)
    → s.head ≡ 0
    → ((video_font_register s p).head ≡ p) × ((video_font_register s p).font ≡ s.font)
unfolding video_font_register
register-first s p e = let t : (s.head == 0) ≡ true = ground arith in (rw t, rw t)

-- A font registered later changes neither the head nor the font there.
register-later :
    (s : Fonts) (q : ℕ)
    → s.head ≢ 0
    → q ≢ s.head
    → ((video_font_register s q).head ≡ s.head)
      × ((video_font_register s q).font s.head ≡ s.font s.head)
unfolding video_font_register
register-later s q nz ne =
    let t : (s.head == 0) ≡ false = ground arith in
    let u : (q == s.head) ≡ false = ground arith in (rw t, rw (t, u))

all_registered-later :
    (s : Fonts) (p : ℕ) (qs : List ℕ)
    → s.head ≡ p
    → p ≢ 0
    → Avoids p qs
    → ((all_registered s qs).head ≡ p) × ((all_registered s qs).font p ≡ s.font p)
all_registered-later s p [] e nz av = (e, refl)
all_registered-later s p (q ∷ qs) e nz (ne, av) =
    let ne' : q ≢ s.head = λ z. ne (z ∙ e) in
    let nz' : s.head ≢ 0 = λ z. nz (sym e ∙ z) in
    let (h, f) = register-later s q nz' ne' in
    let (h', f') = all_registered-later (video_font_register s q) p qs (h ∙ e) nz av in
    (h', f' ∙ ap (video_font_register s q).font (sym e) ∙ f ∙ ap s.font e)

loop-first :
    (k : ℕ) (s : Fonts) (p : ℕ) (name : List ℕ) (order : ℤ)
    → p ≢ 0
    → (s.font p).next ≡ 0
    → istrncmp (s.font p).font_name name font_name_size ≡ done order
    → font_loop (suc (suc k)) s name p ≡ (if is_equal order then some (done p) else some (done 0))
unfolding font_loop
loop-first k s p name order nz end cmp = let t : (p == 0) ≡ false = ground arith in rw (t, cmp, end)

-- With any number of fonts registered in a list that was empty, the look for a name ends, and it finds
-- the first of them or none: the others are not reached, whatever their names are.
pub video_font_get-first :
    (k : ℕ) (s : Fonts) (p : ℕ) (qs name : List ℕ) (order : ℤ)
    → s.head ≡ 0
    → p ≢ 0
    → (s.font p).next ≡ 0
    → Avoids p qs
    → istrncmp (s.font p).font_name name font_name_size ≡ done order
    → video_font_get (suc (suc k)) (all_registered s (p ∷ qs)) name
      ≡ (if is_equal order then some (done p) else some (done 0))
unfolding video_font_get
video_font_get-first k s p qs name order empty nz end av cmp =
    let (head, same) = register-first s p empty in
    let (h, f) = all_registered-later (video_font_register s p) p qs head nz av in
    let r = all_registered (video_font_register s p) qs in
    let font : r.font p ≡ s.font p = f ∙ ap (λ (g : ℕ → Font). g p) same in
    ap (font_loop (suc (suc k)) r name) h
    ∙ loop-first k r p name order nz (ap (λ (g : Font). g.next) font ∙ end)
        (ap (λ (g : Font). istrncmp g.font_name name font_name_size) font ∙ cmp)
