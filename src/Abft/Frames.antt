-- ===== src/Abft/Frames.antt =====
-- The frame of an event (`calcFrameIdx` of abft/event_processing.go).
use lachesis_base.Base.{
  ℕ, zero, suc, ◌+◌, ◌-◌, ◌^◌, ◌≤◌, ◌<◌, ◌≡◌, ◌⊎◌, inl, inr, refl, sym, ap, subst, ◌∙◌, arith, Bool,
  true, false, Bool-cases, Option-cases, Option, some, List, ◌==◌, if◌then◌else◌,
}
use lachesis_base.Dag.{Event, self_parent}
use lachesis_base.Pos.{Validators}
use lachesis_base.Election.{RootAndSlot}
use lachesis_base.Abft.{
  saved, forkless_caused_by_quorum_on, frame_loop, self_parent_frame, calc_frame_idx,
  check_and_save_event, build_event, add_root, add_roots, max_frame_to_check,
}

module _ (observe : ℕ → ℕ → Bool) (validators : Validators) where
  -- So many frames from a frame on all cause the event by a quorum.
  abbrev pub AllCaused : List RootAndSlot → Event → ℕ → ℕ → Type 0
  AllCaused roots e zero f = Unit
  AllCaused roots e (suc n) f =
      (forkless_caused_by_quorum_on observe validators roots e f ≡ some true)
      × AllCaused roots e n (f + 1)

  -- It stopped after all the frames, or at one that is not a cause.
  abbrev pub Stopped : List RootAndSlot → Event → ℕ → ℕ → ℕ → Type 0
  Stopped roots e n k g =
      (k ≡ n) ⊎ (forkless_caused_by_quorum_on observe validators roots e g ≡ some false)

  Stopped-at :
      (roots : List RootAndSlot) (e : Event) (n k n' k' g h : ℕ)
      → (k ≡ n → k' ≡ n')
      → g ≡ h
      → Stopped roots e n k g
      → Stopped roots e n' k' h
  Stopped-at roots e n k n' k' g h f p (inl q) = inl (f q)
  Stopped-at roots e n k n' k' g h f p (inr q) =
      inr (subst (λ x. forkless_caused_by_quorum_on observe validators roots e x ≡ some false) p q)

  -- The loop ends at the first frame that is not a cause, or at the limit.
  pub frame_loop_lem :
      (roots : List RootAndSlot) (e : Event) (n f g : ℕ)
      → frame_loop observe validators roots e n f ≡ some g
      → (k : ℕ) × (g ≡ f + k) × (k ≤ n) × AllCaused roots e k f × Stopped roots e n k (f + k)
  unfolding frame_loop
  frame_loop_lem roots e zero f g h = (0, ground arith, omega arith, tt, inl refl)
  frame_loop_lem roots e (suc n) f g h =
      elim (Option-cases (forkless_caused_by_quorum_on observe validators roots e f)) [
        | inl p ↦ absurd (ground arith)
        | inr (true, p) ↦
            let run : frame_loop observe validators roots e n (f + 1) ≡ some g = ground arith in
            let (k, same, less, all, end) = frame_loop_lem roots e n (f + 1) g run in
            (
              suc k,
              omega (arith, same),
              omega (arith, less),
              (p, all),
              Stopped-at roots e n k (suc n) (suc k) (f + 1 + k) (f + suc k) (ap suc) (omega arith)
                  end,
            )
        | inr (false, p) ↦ (
          0,
          ground arith,
          omega arith,
          tt,
          Stopped-at roots e 0 1 (suc n) 0 f (f + 0) (λ q. absurd (omega arith)) (omega arith)
              (inr p),
        )
      ]

  -- And it does end there.
  pub frame_loop_run :
      (roots : List RootAndSlot) (e : Event) (n f k : ℕ)
      → k ≤ n
      → AllCaused roots e k f
      → Stopped roots e n k (f + k)
      → frame_loop observe validators roots e n f ≡ some (f + k)
  unfolding frame_loop
  frame_loop_run roots e zero f zero l all end = ground arith
  frame_loop_run roots e zero f (suc k) l all end = absurd (omega arith)
  frame_loop_run roots e (suc n) f zero l all (inl same) = absurd (omega arith)
  frame_loop_run roots e (suc n) f zero l all (inr stop) =
      let here : f + 0 ≡ f = omega arith in
      let p =
        subst (λ x. forkless_caused_by_quorum_on observe validators roots e x ≡ some false) here
          stop in
      ground arith
  frame_loop_run roots e (suc n) f (suc k) l all end =
      let run = frame_loop_run roots e n (f + 1) k (omega arith) all.1 (
        Stopped-at roots e (suc n) (suc k) n k (f + suc k) (f + 1 + k) (λ q. omega arith)
          (omega arith) end) in
      let caused = all.0 in ground arith

  -- The claimed frame plays no part in it.
  AllCaused-frame :
      (roots : List RootAndSlot) (e : Event) (g k f : ℕ)
      → AllCaused roots e k f
      → AllCaused roots (record e { frame = g }) k f
  AllCaused-frame roots e g zero f h = tt
  AllCaused-frame roots e g (suc k) f h = (h.0, AllCaused-frame roots e g k (f + 1) h.1)

  rerun :
      (roots : List RootAndSlot) (e : Event) (n from f g : ℕ)
      → 0 < n
      → frame_loop observe validators roots e n from ≡ some f
      → g ≡ (if f == 0 then 1 else f)
      → frame_loop observe validators roots (record e { frame = g }) (g - from) from ≡ some f
  rerun roots e n from f g z run set =
      let (k, end, less, all, stop) = frame_loop_lem roots e n from f run in
      let all' = AllCaused-frame roots e g k from all in
      elim (Bool-cases (f == 0)) [
        | inl c ↦
            let k_zero : k ≡ 0 = ground arith in
            let first : g - from ≡ 1 = ground arith in
            let stop' =
              Stopped-at roots e n k (g - from) k (from + k) (from + k) (λ q. absurd (omega arith))
                refl stop in
            frame_loop_run roots (record e { frame = g }) (g - from) from k (omega arith) all' stop'
            ∙ ap some (sym end)
        | inr c ↦
            let count_left : g - from ≡ k = ground arith in
            frame_loop_run roots (record e { frame = g }) (g - from) from k (omega arith) all'
              (inl (sym count_left))
            ∙ ap some (sym end)
      ]

module _ (observe : ℕ → ℕ → Bool) (validators : Validators) (get_event : ℕ → Option Event) where
  calc_frame_idx-some :
      (roots : List RootAndSlot) (e : Event) (check_only : Bool) (from g : ℕ)
      → calc_frame_idx observe validators get_event roots e check_only ≡ some (from, g)
      → (self_parent_frame get_event e ≡ some from)
        × ((f : ℕ) × (frame_loop observe validators roots e
                (max_frame_to_check e check_only from - from)
                from
              ≡ some f)
            × (g ≡ (if f == 0 then 1 else f)))
  unfolding calc_frame_idx
  calc_frame_idx-some roots e c from g h = elim (Option-cases (self_parent_frame get_event e)) [
    | inl p ↦ absurd (ground arith)
    | inr (fr, p) ↦
        elim (Option-cases
          (frame_loop observe validators roots e (max_frame_to_check e c fr - fr) fr)) [
            | inl q ↦ absurd (ground arith)
            | inr (f, q) ↦
                let same : fr ≡ from = ground arith in
                let there =
                  subst
                    (λ x.
                      frame_loop observe validators roots e (max_frame_to_check e c x - x) x
                      ≡ some f)
                    same q in
                (p ∙ ap some same, (f, there, ground arith))
          ]
  ]

  add_root-none :
      (roots : List RootAndSlot) (e : Event) (from : ℕ)
      → e.frame ≡ from
      → add_root from e roots ≡ roots
  unfolding add_roots
  add_root-none roots e from h =
      let nothing : e.frame - from ≡ 0 = omega arith in rw (nothing, add_roots) refl

  check_run :
      (roots : List RootAndSlot) (e : Event) (from f : ℕ)
      → self_parent_frame get_event e ≡ some from
      → frame_loop observe validators roots e (e.frame - from) from ≡ some f
      → e.frame ≡ (if f == 0 then 1 else f)
      → check_and_save_event observe validators get_event roots e
        ≡ some (saved from (add_root from e roots))
  unfolding check_and_save_event calc_frame_idx
  check_run roots e from f sp run same = elim (Bool-cases (from == e.frame)) [
    | inl eq ↦ let nothing = add_root-none roots e from (ground arith) in ground arith
    | inr ne ↦ ground arith
  ]

  check_inv :
      (roots roots' : List RootAndSlot) (e : Event) (from : ℕ)
      → check_and_save_event observe validators get_event roots e ≡ some (saved from roots')
      → (calc_frame_idx observe validators get_event roots e true ≡ some (from, e.frame))
        × (roots' ≡ add_root from e roots)
  unfolding check_and_save_event
  check_inv roots roots' e from h =
      elim (Option-cases (calc_frame_idx observe validators get_event roots e true)) [
        | inl p ↦ absurd (ground arith)
        | inr ((fr, g), p) ↦ elim (Bool-cases (e.frame == g)) [
          | inl c ↦
              let same : fr ≡ from = ground arith in
              let claimed : g ≡ e.frame = ground arith in
              elim (Bool-cases (fr == g)) [
                | inl d ↦
                    let nothing = add_root-none roots e from (ground arith) in
                    let kept : roots ≡ roots' = ground arith in
                    (ground arith, sym kept ∙ sym nothing)
                | inr d ↦
                    let kept : add_root fr e roots ≡ roots' = ground arith in
                    (ground arith, sym kept ∙ ap (λ x. add_root x e roots) same)
              ]
          | inr c ↦ absurd (ground arith)
        ]
      ]

  -- If an event is checked and saved, then the frame that it claims is positive, and it is 1 where
  -- the self-parent's frame is 0 (there is no self-parent), or every frame from the self-parent's up
  -- to it, without it, causes the event by a quorum. Its roots are added by `AddRoot` from the
  -- self-parent's frame.
  pub check_and_save_event-saved :
      (roots roots' : List RootAndSlot) (e : Event) (from : ℕ)
      → check_and_save_event observe validators get_event roots e ≡ some (saved from roots')
      → (self_parent_frame get_event e ≡ some from)
        × (0 < e.frame)
        × (roots' ≡ add_root from e roots)
        × (((from ≡ 0) × (e.frame ≡ 1))
            ⊎ ((k : ℕ) × (e.frame ≡ from + k) × AllCaused observe validators roots e k from))
  check_and_save_event-saved roots roots' e from h =
      let (calc, added) = check_inv roots roots' e from h in
      let (sp, (f, run, frame)) = calc_frame_idx-some roots e true from e.frame calc in
      let (k, end, less, all, stop) =
        frame_loop_lem observe validators roots e (e.frame - from) from f run in
      (
        sp,
        ground (arith, frame),
        added,
        elim (Bool-cases (f == 0)) [
          | inl z ↦ inl (ground (arith, end), ground (arith, frame))
          | inr z ↦ inr (k, ground (arith, frame, end), all)
        ],
      )

  -- The other way round, an event that claims such a frame is saved.
  pub check_and_save_event-accepts :
      (roots : List RootAndSlot) (e : Event) (from k : ℕ)
      → self_parent_frame get_event e ≡ some from
      → 0 < e.frame
      → e.frame ≡ from + k
      → AllCaused observe validators roots e k from
      → check_and_save_event observe validators get_event roots e
        ≡ some (saved from (add_root from e roots))
  check_and_save_event-accepts roots e from k sp pos same all =
      let there : e.frame - from ≡ k = omega arith in
      let run = frame_loop_run observe validators roots e k from k (omega arith) all (inl refl) in
      check_run roots e from (from + k) sp (rw there run) (ground arith)

  build_inv :
      (epoch : ℕ) (roots : List RootAndSlot) (e e' : Event)
      → build_event observe validators get_event epoch roots e ≡ some e'
      → (from : ℕ) × (g : ℕ) × (calc_frame_idx observe validators get_event roots e false
          ≡ some (from, g))
        × (record e { frame = g } ≡ e')
  unfolding build_event
  build_inv epoch roots e e' h =
      elim (Option-cases (calc_frame_idx observe validators get_event roots e false)) [
        | inl p ↦ absurd (ground arith)
        | inr ((from, g), p) ↦ (from, g, p, ground arith)
      ]

  -- An event whose frame `Build` has set passes the check with that frame.
  pub build_event-check_and_save_event :
      (epoch : ℕ) (roots : List RootAndSlot) (e e' : Event) (from : ℕ)
      → self_parent_frame get_event e ≡ some from
      → from + 100 < 2 ^ 32
      → build_event observe validators get_event epoch roots e ≡ some e'
      → check_and_save_event observe validators get_event roots e'
        ≡ some (saved from (add_root from e' roots))
  unfolding self_parent_frame self_parent
  build_event-check_and_save_event epoch roots e e' from sp small h =
      let (fr, g, calc, set) = build_inv epoch roots e e' h in
      let (sp', (f, run, frame)) = calc_frame_idx-some roots e false fr g calc in
      let same : fr ≡ from = ground (arith, sp', sp) in
      let run' =
        subst (λ x. frame_loop observe validators roots (record e { frame = g }) (g - x) x ≡ some f)
          same (rerun observe validators roots e _ fr f g (omega (arith, same)) run frame) in
      subst
        (λ x.
          check_and_save_event observe validators get_event roots x
          ≡ some (saved from (add_root from x roots)))
        set (check_run roots (record e { frame = g }) from f sp run' frame)
