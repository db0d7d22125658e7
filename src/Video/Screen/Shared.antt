-- ===== src/Video/Screen/Shared.antt =====
-- When a shared rectangle is given back.
use cos.Prelude.{
  ℕ, zero, suc, ◌-◌, ◌≤◌, ◌≡◌, refl, ap, ◌∙◌, arith, true, false, List, ◌∷◌, leb, ◌==◌,
  if◌then◌else◌, if-both, pos, negsuc,
}
use cos.Video.Rectangle.{Rectangle, add_ℕ}
use cos.Video.Screen.{
  Video, with_rectangle, add_int, released, video_rectangle_register, video_rectangle_free,
}

-- The rectangle is freed `k` times.
abbrev pub frees : ℕ → Video → ℕ → Video
frees zero v p = v
frees (suc k) v p = frees k (video_rectangle_free v p) p

with_rectangle_self :
    (v : Video) (p : ℕ) (rect : Rectangle) → (with_rectangle v p rect).rectangle p ≡ rect
with_rectangle_self v p rect = let t : (p == p) ≡ true = ground arith in rw t

free-count :
    (v : Video) (p n : ℕ)
    → (v.rectangle p).shared ≡ pos (suc n)
    → video_rectangle_free v p ≡ released v p (pos n)
unfolding video_rectangle_free
free-count v p n e =
    let one : leb 1 (suc n) ≡ true = ground arith in
    let less : suc n - 1 ≡ n = omega arith in
    ap (λ s. released v p (add_int s (negsuc 0))) e
    ∙ ap (λ b. released v p (if b then pos (suc n - 1) else negsuc (0 - suc n))) one
    ∙ ap (λ m. released v p (pos m)) less

-- A user less, of two or more, and the last.
free-others :
    (v : Video) (p n : ℕ)
    → (v.rectangle p).shared ≡ pos (suc (suc n))
    → ((video_rectangle_free v p).freed ≡ v.freed)
      × (((video_rectangle_free v p).rectangle p).shared ≡ pos (suc n))
free-others v p n e =
    let t : (suc n == 0) ≡ false = ground arith in
    let u = free-count v p (suc n) e in
    (
      ap (λ (r : Video). r.freed) u ∙ rw t,
      ap (λ (r : Video). (r.rectangle p).shared) u
          ∙ rw t (
              ap (λ (r : Rectangle). r.shared)
                (with_rectangle_self v p (record (v.rectangle p) { shared = pos (suc n) }))),
    )

free-last :
    (v : Video) (p : ℕ)
    → (v.rectangle p).shared ≡ pos 1
    → (video_rectangle_free v p).freed ≡ p ∷ v.freed
free-last v p e = ap (λ (r : Video). r.freed) (free-count v p 0 e)

frees-kept :
    (k n : ℕ) (v : Video) (p : ℕ)
    → (v.rectangle p).shared ≡ pos (suc n)
    → k ≤ n
    → (frees k v p).freed ≡ v.freed
frees-kept zero n v p e le = refl
frees-kept (suc k) zero v p e le = absurd (omega arith)
frees-kept (suc k) (suc n) v p e le =
    let (same, e') = free-others v p n e in
    frees-kept k n (video_rectangle_free v p) p e' (omega arith) ∙ same

frees-last :
    (n : ℕ) (v : Video) (p : ℕ)
    → (v.rectangle p).shared ≡ pos (suc n)
    → (frees (suc n) v p).freed ≡ p ∷ v.freed
frees-last zero v p e = free-last v p e
frees-last (suc n) v p e =
    let (same, e') = free-others v p n e in
    frees-last n (video_rectangle_free v p) p e' ∙ ap (λ (f : List ℕ). p ∷ f) same

register_lem :
    (v : Video) (list_item p n : ℕ)
    → (v.rectangle p).shared ≡ pos n
    → (((video_rectangle_register v list_item p).rectangle p).shared ≡ pos (suc n))
      × ((video_rectangle_register v list_item p).freed ≡ v.freed)
unfolding video_rectangle_register
register_lem v list_item p n e =
    let count : ((with_rectangle v p
            (record (v.rectangle p) { shared = add_ℕ (v.rectangle p).shared 1 })).rectangle
          p).shared
        ≡ pos (suc n) =
      ap (λ (r : Rectangle). r.shared) (with_rectangle_self v p _)
      ∙ ap (λ s. add_ℕ s 1) e
      ∙ ap pos (omega arith) in
    if-both (λ (r : Video). ((r.rectangle p).shared ≡ pos (suc n)) × (r.freed ≡ v.freed))
      (v.rectangles == 0) _ _ (count, refl) (count, refl)

-- A rectangle that `n` users share is registered once more, in a list of any length. Then none of the
-- first `n` calls of `video_rectangle_free` gives it back, and the next one does.
pub video_rectangle_free-register :
    (v : Video) (list_item p n k : ℕ)
    → (v.rectangle p).shared ≡ pos n
    → k ≤ n
    → ((frees k (video_rectangle_register v list_item p) p).freed ≡ v.freed)
      × ((frees (suc n) (video_rectangle_register v list_item p) p).freed ≡ p ∷ v.freed)
video_rectangle_free-register v list_item p n k e le =
    let (more, same) = register_lem v list_item p n e in
    (
      frees-kept k n (video_rectangle_register v list_item p) p more le ∙ same,
      frees-last n (video_rectangle_register v list_item p) p more
          ∙ ap (λ (f : List ℕ). p ∷ f) same,
    )
