-- ===== src/Abft/Roots.antt =====
-- The table of the roots (abft/store_roots.go): what an event adds, and what a frame reads.
use lachesis_base.Base.{
  ℕ, zero, suc, ◌+◌, ◌-◌, ◌≤◌, ◌<◌, ◌≡◌, ◌↔◌, ◌⊎◌, inl, inr, sym, ap, ◌∙◌, arith, true, Bool-cases,
  List, [], ◌∷◌, ◌==◌, ==_iff, In,
}
use lachesis_base.Dag.{Event}
use lachesis_base.Election.{RootAndSlot}
use lachesis_base.Abft.{
  root_less, root_same, put_root, root_at, add_roots, add_root, get_frame_roots,
}

root_ext :
    (a b : RootAndSlot)
    → a.slot.frame ≡ b.slot.frame
    → a.slot.validator ≡ b.slot.validator
    → a.id ≡ b.id
    → a ≡ b
root_ext a b p q r = λ i. record { id = r i; slot = record { frame = p i; validator = q i } }

root_same-eq : (a b : RootAndSlot) → root_same a b ≡ true → a ≡ b
root_same-eq a b h = root_ext a b (ground arith) (ground arith) (ground arith)

In-put_root :
    (q r : RootAndSlot) (roots : List RootAndSlot) → In q (put_root r roots) → (q ≡ r) ⊎ In q roots
unfolding put_root
In-put_root q r [] h = ground arith
In-put_root q r (x ∷ xs) h = elim (Bool-cases (root_same r x)) [
  | inl s ↦ ground arith
  | inr s ↦ elim (Bool-cases (root_less r x)) [
    | inl l ↦ ground arith
    | inr l ↦
        let h' : (q ≡ x) ⊎ In q (put_root r xs) = ground arith in
        elim h' [
          | inl e ↦ inr (inl e)
          | inr t ↦ elim (In-put_root q r xs t) [ inl e ↦ inl e | inr u ↦ inr (inr u) ]
        ]
  ]
]

put_root-In :
    (q r : RootAndSlot) (roots : List RootAndSlot) → (q ≡ r) ⊎ In q roots → In q (put_root r roots)
unfolding put_root
put_root-In q r [] h = ground arith
put_root-In q r (x ∷ xs) h = elim (Bool-cases (root_same r x)) [
  | inl s ↦
      let same = root_same-eq r x s in
      rw s (elim h [ inl e ↦ inl e | inr (inl e) ↦ inl (e ∙ sym same) | inr (inr t) ↦ inr t ])
  | inr s ↦ elim (Bool-cases (root_less r x)) [
    | inl l ↦ rw (s, l) h
    | inr l ↦
        rw (s, l)
          (elim h [
            | inl e ↦ inr (put_root-In q r xs (inl e))
            | inr (inl e) ↦ inl e
            | inr (inr t) ↦ inr (put_root-In q r xs (inr t))
          ])
  ]
]

-- The frames at which the loop adds the root.
In-add_roots :
    (n f : ℕ) (root : Event) (roots : List RootAndSlot) (q : RootAndSlot)
    → In q (add_roots n f root roots) ↔ (
        In q roots
        ⊎ ((q ≡ root_at root q.slot.frame) × (f ≤ q.slot.frame) × (q.slot.frame < f + n)))
unfolding add_roots
In-add_roots zero f root roots q =
    (λ h. inl h, λ h. elim h [ inl t ↦ t | inr (a, b, c) ↦ absurd (omega arith) ])
In-add_roots (suc n) f root roots q =
    let (there, back) = In-add_roots n (f + 1) root (put_root (root_at root f) roots) q in
    (
      λ h. elim (there h) [
        | inl t ↦ elim (In-put_root q (root_at root f) roots t) [
          | inl e ↦
              let p = ap (λ (x : RootAndSlot). x.slot.frame) e in
              inr (e ∙ ap (root_at root) (sym p), omega (arith, p), omega (arith, p))
          | inr u ↦ inl u
        ]
        | inr (a, b, c) ↦ inr (a, omega arith, omega arith)
      ],
      λ h. elim h [
        | inl t ↦ back (inl (put_root-In q (root_at root f) roots (inr t)))
        | inr (a, b, c) ↦ elim (Bool-cases (q.slot.frame == f)) [
          | inl e ↦ back (
              inl (
                put_root-In q (root_at root f) roots
                  (inl (a ∙ ap (root_at root) ((==_iff q.slot.frame f).0 e)))))
          | inr e ↦ back (inr (a, ground arith, omega arith))
        ]
      ],
    )

In-get_frame_roots :
    (roots : List RootAndSlot) (f : ℕ) (q : RootAndSlot)
    → In q (get_frame_roots roots f) ↔ (In q roots × (q.slot.frame ≡ f))
unfolding get_frame_roots
In-get_frame_roots [] f q = (λ h. absurd h, λ h. h.0)
In-get_frame_roots (r ∷ rs) f q =
    let (there, back) = In-get_frame_roots rs f q in
    elim (Bool-cases (r.slot.frame == f)) [
      | inl e ↦
          let same = (==_iff r.slot.frame f).0 e in
          rw e (
            λ h. elim h [
              | inl p ↦ (inl p, ap (λ (x : RootAndSlot). x.slot.frame) p ∙ same)
              | inr t ↦ (inr (there t).0, (there t).1)
            ],
            λ h. elim h.0 [ inl p ↦ inl p | inr t ↦ inr (back (t, h.1)) ],
          )
      | inr e ↦ rw e (
        λ h. (inr (there h).0, (there h).1),
        λ h. elim h.0 [
          | inl p ↦
              let q = ap (λ (x : RootAndSlot). x.slot.frame) p in absurd (ground (arith, q, h.1))
          | inr t ↦ back (t, h.1)
        ],
      )
    ]

-- After an event is added as a root, a frame has the roots that it had, and the event's root exactly
-- if the frame is after the self-parent's and not after the event's own.
pub get_frame_roots-add_root :
    (from f : ℕ) (root : Event) (roots : List RootAndSlot) (q : RootAndSlot)
    → In q (get_frame_roots (add_root from root roots) f)
      ↔ (In q (get_frame_roots roots f) ⊎ ((q ≡ root_at root f) × (from < f) × (f ≤ root.frame)))
get_frame_roots-add_root from f root roots q =
    let (reads, is_read) = In-get_frame_roots (add_root from root roots) f q in
    let (old, is_old) = In-get_frame_roots roots f q in
    let (added, is_added) = In-add_roots (root.frame - from) (from + 1) root roots q in
    (
      λ h.
          let (t, p) = reads h in
          elim (added t) [
            | inl u ↦ inl (is_old (u, p))
            | inr (a, b, c) ↦ inr (a ∙ ap (root_at root) p, omega (arith, p), omega (arith, p))
          ],
      λ h. elim h [
        | inl t ↦ let (u, p) = old t in is_read (is_added (inl u), p)
        | inr (a, b, c) ↦
            let p = ap (λ (x : RootAndSlot). x.slot.frame) a in
            is_read (
              is_added (inr (a ∙ ap (root_at root) (sym p), omega (arith, p), omega (arith, p))),
              p,
            )
      ],
    )
