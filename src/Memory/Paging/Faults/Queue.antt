-- ===== src/Memory/Paging/Faults/Queue.antt =====
-- The queue of faults in order, and whom the handlers are told of.
use cos.Prelude.{
  ℕ, zero, suc, ◌<◌, ◌≡◌, ◌≢◌, refl, sym, ap, subst, ◌∙◌, true, false, some, List, [], ◌∷◌, ◌++◌,
  arith, ◌==◌, length,
}
use cos.Prelude.Chains.{
  Linked, NotIn, Distinct, last_or, last_or-ne, Linked-snoc, last_or-snoc, Distinct-snoc,
  Linked-elsewhere,
}
use cos.Memory.Paging.Faults.{
  Fault, Chunk, Faults, set_fault, set_chunk, paging_new_fault, enqueue, paging_register_fault,
  paging_process_past_fault, queue_loop, paging_process_fault_queue,
}

abbrev pub next_of : Faults → ℕ → ℕ
next_of s p = (s.fault p).next

-- The faults of a chunk since the last processing, oldest first.
pub record IsQueue (s : Faults) (chunk : ℕ) (ps : List ℕ) : Type 0 where
  pub linked : Linked (next_of s) (s.chunk chunk).faults ps
  pub last : (s.chunk chunk).last_fault ≡ last_or ps 0
  pub distinct : Distinct ps

-- What the handlers are told when the queue is processed.
abbrev pub told : List ℕ → List ℕ → List (ℕ × List ℕ)
told hs [] = []
told hs (p ∷ ps) = (p, paging_process_past_fault hs) ∷ told hs ps

queue_loop-told :
    (fuel : ℕ) (s : Faults) (hs : List ℕ) (p : ℕ) (ps : List ℕ)
    → Linked (next_of s) p ps
    → length ps < fuel
    → queue_loop fuel s hs p ≡ some (told hs ps)
unfolding queue_loop
queue_loop-told zero s hs p ps l lt = absurd (omega arith)
queue_loop-told (suc k) s hs p [] l lt = let t : (p == 0) ≡ true = ground arith in rw t
queue_loop-told (suc k) s hs p (q ∷ ps) (e, nz, l) lt =
    let t : (p == 0) ≡ false = ground arith in
    rw (t, e, queue_loop-told k s hs (next_of s q) ps l (omega arith))

-- The loop over the queue ends, for fuel above the number of faults, and tells every handler of every
-- fault of the chunk once, in order.
pub process_fault_queue-told :
    (fuel : ℕ) (s : Faults) (hs : List ℕ) (chunk : ℕ) (ps : List ℕ)
    → IsQueue s chunk ps
    → length ps < fuel
    → paging_process_fault_queue fuel s hs chunk ≡ some (told hs ps)
unfolding paging_process_fault_queue
process_fault_queue-told fuel s hs chunk ps q lt =
    queue_loop-told fuel s hs (s.chunk chunk).faults ps q.linked lt

set_fault_self : (s : Faults) (p : ℕ) (f : Fault) → (set_fault s p f).fault p ≡ f
unfolding set_fault
set_fault_self s p f = let t : (p == p) ≡ true = ground arith in rw t

set_fault_ne : (s : Faults) (p x : ℕ) (f : Fault) → p ≢ x → (set_fault s p f).fault x ≡ s.fault x
unfolding set_fault
set_fault_ne s p x f ne = let t : (p == x) ≡ false = ground arith in rw t

set_fault-chunk : (s : Faults) (p : ℕ) (f : Fault) → (set_fault s p f).chunk ≡ s.chunk
unfolding set_fault
set_fault-chunk s p f = refl

set_chunk_self : (s : Faults) (p : ℕ) (c : Chunk) → (set_chunk s p c).chunk p ≡ c
unfolding set_chunk
set_chunk_self s p c = let t : (p == p) ≡ true = ground arith in rw t

set_chunk-fault : (s : Faults) (p : ℕ) (c : Chunk) → (set_chunk s p c).fault ≡ s.fault
unfolding set_chunk
set_chunk-fault s p c = refl

-- `enqueue` of a fault that is in no queue and leads nowhere.
enqueue-first :
    (s : Faults) (new c : ℕ)
    → (s.chunk c).faults ≡ 0
    → enqueue s new c ≡ set_chunk s c (record (s.chunk c) { faults = new; last_fault = new })
unfolding enqueue
enqueue-first s new c e = let t : ((s.chunk c).faults == 0) ≡ true = ground arith in rw t

enqueue-more :
    (s : Faults) (new c : ℕ)
    → (s.chunk c).faults ≢ 0
    → enqueue s new c
      ≡ set_chunk
          (set_fault s
            (s.chunk c).last_fault
            (record (s.fault (s.chunk c).last_fault) { next = new }))
          c
          (record (s.chunk c) { last_fault = new })
unfolding enqueue
enqueue-more s new c ne = let t : ((s.chunk c).faults == 0) ≡ false = ground arith in rw t

-- What a fault behind the last one of the queue must be for the queue to grow by it.
Grown : Faults → (new c : ℕ) → List ℕ → Faults → Type 0
Grown s new c ps s' = IsQueue s' c (ps ++ (new ∷ [])) × (s'.fault new ≡ s.fault new)

enqueue-Grown :
    (s : Faults) (new c : ℕ) (ps : List ℕ)
    → IsQueue s c ps
    → NotIn new ps
    → new ≢ 0
    → next_of s new ≡ 0
    → Grown s new c ps (enqueue s new c)
unfolding Grown
enqueue-Grown s new c [] q n nz end =
    let s' = set_chunk s c (record (s.chunk c) { faults = new; last_fault = new }) in
    let at = set_chunk_self s c (record (s.chunk c) { faults = new; last_fault = new }) in
    subst (Grown s new c []) (sym (enqueue-first s new c q.linked)) (
      record {
        linked =
            subst (λ h. Linked (next_of s') h (new ∷ [])) (sym (ap (λ (x : Chunk). x.faults) at))
              (refl, nz, ap (λ (f : ℕ → Fault). (f new).next) (set_chunk-fault s c _) ∙ end);
        last = ap (λ (x : Chunk). x.last_fault) at;
        distinct = (tt, tt);
      },
      ap (λ (f : ℕ → Fault). f new) (set_chunk-fault s c _),
    )
enqueue-Grown s new c (p ∷ ps) q n nz end =
    let head : (s.chunk c).faults ≢ 0 = λ z. q.linked.1 (sym (q.linked.0) ∙ z) in
    let e = q.last in
    let last = (s.chunk c).last_fault in
    let fresh : last ≢ new = λ z. last_or-ne new p ps n (sym e ∙ z) in
    let s1 = set_fault s last (record (s.fault last) { next = new }) in
    let s2 = set_chunk s1 c (record (s.chunk c) { last_fault = new }) in
    let at = set_chunk_self s1 c (record (s.chunk c) { last_fault = new }) in
    let faults : (x : ℕ) → last ≢ x → s2.fault x ≡ s.fault x = λ x away.
      ap (λ (f : ℕ → Fault). f x) (set_chunk-fault s1 c _) ∙ set_fault_ne s last x _ away in
    let new_link : next_of s2 last ≡ new =
      ap (λ (f : ℕ → Fault). (f last).next) (set_chunk-fault s1 c _)
      ∙ ap (λ (f : Fault). f.next) (set_fault_self s last (record (s.fault last) { next = new })) in
    subst (Grown s new c (p ∷ ps)) (sym (enqueue-more s new c head)) (
      record {
        linked =
            subst (λ h. Linked (next_of s2) h ((p ∷ ps) ++ (new ∷ [])))
              (sym (ap (λ (x : Chunk). x.faults) at))
              (Linked-snoc (next_of s) (next_of s2) (s.chunk c).faults p ps new q.linked q.distinct
                nz (λ x away. ap (λ (f : Fault). f.next) (faults x (λ z. away (sym z ∙ e))))
                (ap (next_of s2) (sym e) ∙ new_link)
                (ap (λ (f : Fault). f.next) (faults new fresh) ∙ end));
        last = ap (λ (x : Chunk). x.last_fault) at ∙ sym (last_or-snoc ps p new);
        distinct = Distinct-snoc (p ∷ ps) new q.distinct n;
      },
      faults new fresh,
    )

-- A fault that `kzalloc` has made room for, where no fault of the queue is, joins the queue of its
-- chunk at the end, with its address; the faults before it stay in order.
pub register_fault-IsQueue :
    (s : Faults) (new c address : ℕ) (ps : List ℕ)
    → IsQueue s c ps
    → NotIn new ps
    → new ≢ 0
    → (s' : Faults) × (paging_register_fault s new c address ≡ (new, s'))
      × IsQueue s' c (ps ++ (new ∷ []))
      × ((s'.fault new).address ≡ address)
unfolding Grown paging_register_fault paging_new_fault
register_fault-IsQueue s new c address ps q n nz =
    let f0 : Fault = record { address = 0; chunk = c; next = 0 } in
    let s0 = set_fault s new f0 in
    let f1 : Fault = record (s0.fault new) { address = address } in
    let s1 = set_fault s0 new f1 in
    let chunks : s1.chunk c ≡ s.chunk c =
      ap (λ (f : ℕ → Chunk). f c) (set_fault-chunk s0 new f1 ∙ set_fault-chunk s new f0) in
    let other : (x : ℕ) → new ≢ x → next_of s1 x ≡ next_of s x = λ x away.
      ap (λ (f : Fault). f.next) (set_fault_ne s0 new x f1 away ∙ set_fault_ne s new x f0 away) in
    let made : s1.fault new ≡ f1 = set_fault_self s0 new f1 in
    let end : next_of s1 new ≡ 0 =
      ap (λ (f : Fault). f.next) made ∙ ap (λ (f : Fault). f.next) (set_fault_self s new f0) in
    let q1 : IsQueue s1 c ps = record {
      linked =
          subst (λ h. Linked (next_of s1) h ps) (sym (ap (λ (x : Chunk). x.faults) chunks))
            (Linked-elsewhere (next_of s) (next_of s1) (s.chunk c).faults new ps q.linked n other);
      last = ap (λ (x : Chunk). x.last_fault) chunks ∙ q.last;
      distinct = q.distinct;
    } in
    let g = enqueue-Grown s1 new c ps q1 n nz end in
    let t : (new == 0) ≡ false = ground arith in
    (enqueue s1 new c, rw t, g.0, ap (λ (f : Fault). f.address) (g.1 ∙ made))
