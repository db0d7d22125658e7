-- ===== src/Processes/Arguments/Chain.antt =====
-- The list of arguments: counted, extended at its end, and freed.
use cos.Prelude.{
  ℕ, zero, suc, ◌<◌, ◌≡◌, ◌≢◌, refl, sym, ap, ◌∙◌, subst, arith, true, false, some, List, [], ◌∷◌,
  ◌++◌, ◌==◌, length, replicate, Bool-cases, inl, inr, done, ◌>>=◌,
}
use cos.Prelude.Chains.{
  Linked, NotIn, Distinct, last_or, last_or-ne, last_or-nonzero, Linked-snoc, Linked-elsewhere,
}
use cos.Strings.{strncpy}
use cos.Strings.Copy.{IsText, copied, strncpy-copied}
use cos.Processes.Arguments.{
  argument_size, CommandArgument, Arguments, with_argument, process_count_command_arguments,
  process_arguments_get_last, process_argument_create_one, copy_text, add_to, process_arguments_add,
  process_arguments_destory,
}

-- The arguments from `p` on, in order.
abbrev pub IsList : Arguments → ℕ → List ℕ → Type 0
IsList m p ps = Linked (λ q. (m q).next) p ps

-- The count of a list, and what is freed of it, for fuel above its length.
pub count-length :
    (fuel : ℕ) (m : Arguments) (p : ℕ) (ps : List ℕ)
    → length ps < fuel
    → IsList m p ps
    → process_count_command_arguments fuel m p ≡ some (length ps)
unfolding process_count_command_arguments
count-length zero m p ps lt h = absurd (omega arith)
count-length (suc k) m p [] lt h = let e : (p == 0) ≡ true = ground arith in rw e refl
count-length (suc k) m p (q ∷ qs) lt (e, nz, h) =
    let f : (p == 0) ≡ false = ground arith in
    let rest = count-length k m (m q).next qs (omega arith) h in rw (f, e, rest) refl

pub destory-freed :
    (fuel : ℕ) (m : Arguments) (p : ℕ) (ps : List ℕ)
    → length ps < fuel
    → IsList m p ps
    → process_arguments_destory fuel m p ≡ some ps
unfolding process_arguments_destory
destory-freed zero m p ps lt h = absurd (omega arith)
destory-freed (suc k) m p [] lt h = let e : (p == 0) ≡ true = ground arith in rw e refl
destory-freed (suc k) m p (q ∷ qs) lt (e, nz, h) =
    let f : (p == 0) ≡ false = ground arith in
    let rest = destory-freed k m (m q).next qs (omega arith) h in rw (f, e, rest) refl

get_last-last_or :
    (fuel : ℕ) (m : Arguments) (p q : ℕ) (qs : List ℕ)
    → length (q ∷ qs) < fuel
    → IsList m p (q ∷ qs)
    → process_arguments_get_last fuel m p ≡ some (last_or qs q)
unfolding process_arguments_get_last
get_last-last_or zero m p q qs lt h = absurd (omega arith)
get_last-last_or (suc k) m p q [] lt (e, nz, h) =
    let f : (p == 0) ≡ false = ground arith in
    let last : (m p).next ≡ 0 = ap (λ x. (m x).next) e ∙ h in
    let g : ((m p).next == 0) ≡ true = ground arith in rw (f, g) (ap some e)
get_last-last_or (suc k) m p q (r ∷ qs) lt (e, nz, h) =
    let f : (p == 0) ≡ false = ground arith in
    let same : (m p).next ≡ (m q).next = ap (λ x. (m x).next) e in
    let next : (m p).next ≡ r = same ∙ h.0 in
    let r_nz : r ≢ 0 = h.1 in
    let g : ((m p).next == 0) ≡ false = ground arith in
    let h' = subst (λ x. IsList m x (r ∷ qs)) (sym same) h in
    rw (f, g) (get_last-last_or k m (m p).next r qs (omega arith) h')

-- What the memory holds at an address, and elsewhere.
with_self : (m : Arguments) (p : ℕ) (x : CommandArgument) → with_argument m p x p ≡ x
with_self m p x = let e : (p == p) ≡ true = ground arith in rw e refl

with_other : (m : Arguments) (p q : ℕ) (x : CommandArgument) → p ≢ q → with_argument m p x q ≡ m q
with_other m p q x ne = let e : (p == q) ≡ false = ground arith in rw e refl

text-next :
    (m : Arguments) (p q : ℕ) (bytes : List ℕ)
    → (with_argument m p (record (m p) { argument = bytes }) q).next ≡ (m q).next
text-next m p q bytes = elim (Bool-cases (p == q)) [
  | inl t ↦ let e : p ≡ q = ground arith in rw t (ap (λ x. (m x).next) e)
  | inr f ↦ rw f refl
]

copy_text-copied :
    (m : Arguments) (p : ℕ) (text rest : List ℕ)
    → (m p).argument ≡ replicate argument_size 0
    → IsText text
    → copy_text m p (text ++ (0 ∷ rest))
      ≡ done (
          with_argument m p
            (record (m p) { argument = copied (replicate argument_size 0) text argument_size }))
copy_text-copied m p text rest e t =
    ap
      (λ b. strncpy b (text ++ (0 ∷ rest)) argument_size >>= λ (bytes : List ℕ).
        done (with_argument m p (record (m p) { argument = bytes })))
      e
    ∙ ap
        (λ r.
          r >>= λ (bytes : List ℕ). done (with_argument m p (record (m p) { argument = bytes })))
        (strncpy-copied (replicate argument_size 0) text rest argument_size t (omega arith))

-- The new argument joins the list at its end, with its text, for fuel above the length of the list: its
-- address is not null and in no place of the list, which has an argument.
pub add-IsList :
    (fuel : ℕ) (m : Arguments) (new p q : ℕ) (qs text rest : List ℕ)
    → length (q ∷ qs) < fuel
    → IsList m p (q ∷ qs)
    → Distinct (q ∷ qs)
    → new ≢ 0
    → NotIn new (q ∷ qs)
    → IsText text
    → (m' : Arguments) × (process_arguments_add fuel m new p (text ++ (0 ∷ rest))
        ≡ some (done (new, m')))
      × (IsList m' p ((q ∷ qs) ++ (new ∷ [])))
      × ((m' new).argument ≡ copied (replicate argument_size 0) text argument_size)
unfolding process_arguments_add process_argument_create_one
add-IsList fuel m new p q qs text rest lt h d nz n t =
    let last = last_or qs q in
    let apart : last ≢ new = last_or-ne new q qs n in
    let m1 = process_argument_create_one m new in
    let m2 = with_argument m1 last (record (m1 last) { next = new }) in
    let text' = copied (replicate argument_size 0) text argument_size in
    let m3 = with_argument m2 new (record (m2 new) { argument = text' }) in
    let fresh : m1 new ≡ record { argument = replicate argument_size 0; next = 0 } =
      with_self m new _ in
    let kept : m2 new ≡ m1 new = with_other m1 last new _ apart in
    let last_nz : last ≢ 0 = last_or-nonzero (λ x. (m x).next) p q qs h in
    let a : (last == 0) ≡ false = ground arith in
    let b : (new == 0) ≡ false = ground arith in
    (
      m3,
      ap (add_to m new (text ++ (0 ∷ rest))) (get_last-last_or fuel m p q qs lt h)
          ∙ ap some (
              rw (a, b)
                (ap (λ r. r >>= λ (m' : Arguments). done (new, m'))
                  (copy_text-copied m2 new text rest
                    (ap (λ (y : CommandArgument). y.argument) (kept ∙ fresh)) t))),
      Linked-snoc (λ x. (m1 x).next) (λ x. (m3 x).next) p q qs new
          (Linked-elsewhere (λ x. (m x).next) (λ x. (m1 x).next) p new (q ∷ qs) h n
            (λ x ne. ap (λ (y : CommandArgument). y.next) (with_other m new x _ ne)))
          d nz
          (λ x ne.
            text-next m2 new x text'
            ∙ ap (λ (y : CommandArgument). y.next) (with_other m1 last x _ (λ z. ne (sym z))))
          (text-next m2 new last text' ∙ ap (λ (y : CommandArgument). y.next) (with_self m1 last _))
          (text-next m2 new new text' ∙ ap (λ (y : CommandArgument). y.next) (kept ∙ fresh)),
      ap (λ (y : CommandArgument). y.argument) (with_self m2 new _),
    )
