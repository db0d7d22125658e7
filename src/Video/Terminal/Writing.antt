-- ===== src/Video/Terminal/Writing.antt =====
-- What is written to a terminal.
use cos.Prelude.{
  ℕ, ◌+◌, ◌-◌, ◌<◌, ◌≡◌, ◌≢◌, refl, sym, ap, ap₂, ◌∙◌, arith, true, false, some, List, [], ◌∷◌,
  ◌++◌, append_assoc, append-nil, ltb, ◌==◌, length, length-append, set-append, Run, done, wild,
  ◌>>=◌,
}
use cos.Strings.Copy.{IsText, strlen-length}
use cos.Video.Terminal.{
  TerminalProperties, terminal_putentryat, put_entry, terminal_backspace, terminal_putchar,
  terminal_write, video_terminal_writestring,
}

-- The terminal with `pre` before its index, and `post` from there on.
abbrev pub at : TerminalProperties → (pre post : List ℕ) → TerminalProperties
at p pre post = record p { buffer = some (pre ++ post); index = length pre }

-- No character is a backspace.
abbrev pub IsPlain : List ℕ → Type 0
IsPlain [] = Unit
IsPlain (c ∷ cs) = (c ≢ 8) × IsPlain cs

-- One character further.
at-snoc :
    (p : TerminalProperties) (pre post : List ℕ) (c : ℕ)
    → record p { buffer = some (pre ++ (c ∷ post)); index = length pre + 1 }
      ≡ at p (pre ++ (c ∷ [])) post
at-snoc p pre post c =
    ap₂ (λ b i. record p { buffer = some b; index = i }) (sym (append_assoc pre (c ∷ []) post))
      (sym (length-append pre (c ∷ [])))

put_entry-at :
    (p : TerminalProperties) (pre post : List ℕ) (o c : ℕ)
    → put_entry (at p pre (o ∷ post)) c ≡ done (at p (pre ++ (c ∷ [])) post)
unfolding put_entry terminal_putentryat
put_entry-at p pre post o c =
    let l = length-append pre (o ∷ post) in
    let t : ltb (length pre) (length (pre ++ (o ∷ post))) ≡ true = ground arith in
    rw (t, set-append pre post o c) (ap done (at-snoc p pre post c))

put_entry-full : (p : TerminalProperties) (pre : List ℕ) (c : ℕ) → put_entry (at p pre []) c ≡ wild
unfolding put_entry terminal_putentryat
put_entry-full p pre c =
    let l = length-append pre [] in
    let t : ltb (length pre) (length (pre ++ [])) ≡ false = ground arith in rw t

putchar-plain : (p : TerminalProperties) (c : ℕ) → c ≢ 8 → terminal_putchar p c ≡ put_entry p c
unfolding terminal_putchar
putchar-plain p c ne = let t : (c == 8) ≡ false = ground arith in rw t

write-written :
    (p : TerminalProperties) (pre old post cs rest : List ℕ)
    → IsPlain cs
    → length old ≡ length cs
    → terminal_write (at p pre (old ++ post)) (cs ++ rest) (length cs)
      ≡ done (at p (pre ++ cs) post)
unfolding terminal_write
write-written p pre [] post [] rest plain e =
    ap (λ (q : List ℕ). done (at p q post)) (sym (append-nil pre))
write-written p pre (o ∷ old) post [] rest plain e = absurd (omega arith)
write-written p pre [] post (c ∷ cs) rest plain e = absurd (omega arith)
write-written p pre (o ∷ old) post (c ∷ cs) rest (ne, plain) e =
    ap (λ r. r >>= λ written. terminal_write written (cs ++ rest) (length cs))
      (putchar-plain (at p pre (o ∷ (old ++ post))) c ne ∙ put_entry-at p pre (old ++ post) o c)
    ∙ write-written p (pre ++ (c ∷ [])) old post cs rest plain (omega arith)
    ∙ ap (λ (q : List ℕ). done (at p q post)) (append_assoc pre (c ∷ []) cs)

write-full :
    (p : TerminalProperties) (pre old cs rest : List ℕ)
    → IsPlain cs
    → length old < length cs
    → terminal_write (at p pre old) (cs ++ rest) (length cs) ≡ wild
unfolding terminal_write
write-full p pre old [] rest plain lt = absurd (omega arith)
write-full p pre [] (c ∷ cs) rest (ne, plain) lt =
    ap (λ r. r >>= λ written. terminal_write written (cs ++ rest) (length cs))
      (putchar-plain (at p pre []) c ne ∙ put_entry-full p pre c)
write-full p pre (o ∷ old) (c ∷ cs) rest (ne, plain) lt =
    ap (λ r. r >>= λ written. terminal_write written (cs ++ rest) (length cs))
      (putchar-plain (at p pre (o ∷ old)) c ne ∙ put_entry-at p pre old o c)
    ∙ write-full p (pre ++ (c ∷ [])) old cs rest plain (omega arith)

-- A text without backspaces is written over as many characters of the buffer from the index on, and
-- the index moves behind it. Where what is left of the buffer is shorter, `room`, the write goes over
-- its end.
pub video_terminal_writestring-written :
    (p : TerminalProperties) (pre old post cs rest room : List ℕ)
    → IsText cs
    → IsPlain cs
    → length old ≡ length cs
    → length room < length cs
    → (video_terminal_writestring (at p pre (old ++ post)) (cs ++ (0 ∷ rest))
        ≡ done (at p (pre ++ cs) post))
      × (video_terminal_writestring (at p pre room) (cs ++ (0 ∷ rest)) ≡ wild)
unfolding video_terminal_writestring
video_terminal_writestring-written p pre old post cs rest room t plain e lt =
    let len = strlen-length cs rest t in
    (
      ap (λ r. r >>= terminal_write (at p pre (old ++ post)) (cs ++ (0 ∷ rest))) len
          ∙ write-written p pre old post cs (0 ∷ rest) plain e,
      ap (λ r. r >>= terminal_write (at p pre room) (cs ++ (0 ∷ rest))) len
          ∙ write-full p pre room cs (0 ∷ rest) plain lt,
    )

back : TerminalProperties → Run TerminalProperties
back cleared = done (record cleared { index = cleared.index - 1 })

backspace-behind :
    (p : TerminalProperties) (pre post : List ℕ) (c : ℕ)
    → terminal_backspace (record p { buffer = some (pre ++ (c ∷ post)); index = length pre + 1 })
      ≡ done (at p pre (32 ∷ post))
unfolding terminal_backspace back
backspace-behind p pre post c =
    let z : (length pre + 1 == 0) ≡ false = ground arith in
    let one : length pre + 1 - 1 ≡ length pre = omega arith in
    rw z (
      ap (λ i. put_entry (record p { buffer = some (pre ++ (c ∷ post)); index = i }) 32 >>= back)
        one
      ∙ ap (λ r. r >>= back) (put_entry-at p pre post c 32 ∙ ap done (sym (at-snoc p pre post 32)))
      ∙ ap (λ i. done (record p { buffer = some (pre ++ (32 ∷ post)); index = i })) one)

-- A backspace takes back the character written before it: the index is what it was, and a space
-- stands there. At the start of the buffer it does nothing.
pub terminal_backspace-putchar :
    (p : TerminalProperties) (pre post : List ℕ) (o c : ℕ)
    → c ≢ 8
    → ((terminal_putchar (at p pre (o ∷ post)) c >>= λ written. terminal_putchar written 8)
        ≡ done (at p pre (32 ∷ post)))
      × (terminal_putchar (at p [] post) 8 ≡ done (at p [] post))
unfolding terminal_putchar
terminal_backspace-putchar p pre post o c ne = (
  ap (λ r. r >>= λ written. terminal_putchar written 8)
        (putchar-plain (at p pre (o ∷ post)) c ne ∙ put_entry-at p pre post o c)
      ∙ ap terminal_backspace (sym (at-snoc p pre post c))
      ∙ backspace-behind p pre post c,
  unfold terminal_backspace in refl,
)
