-- ===== src/Check/Child.antt =====
-- parentscheck and all the checks together (eventcheck/parentscheck/parents_check.go,
-- eventcheck/all.go): an event that they accept is its creator's next one, and is above its parents.
use lachesis_base.Base.{
  ℕ, ◌+◌, ◌%◌, ◌^◌, ◌≤◌, ◌<◌, ◌≡◌, ◌≢◌, ◌⊎◌, inl, inr, refl, subst, arith, true, false,
  Option-cases, none, some, List, [], ◌∷◌, ◌==◌, All,
}
use lachesis_base.Dag.{Event, first_parent, self_parent, is_self_parent}
use lachesis_base.Pos.{Validators, exists}
use lachesis_base.Check.{
  Verdict, accepted, rejected, panicked, basic_validate, epoch_validate, max_lamport,
  max_lamport_of, check_self_parents, check_self_parent, check_seq, parents_validate, validate,
  ◌then_check◌,
}
use lachesis_base.Check.Basic.{Nodup, basic_validate_iff}

max_lamport_of-ge :
    (acc : ℕ) (ps : List Event)
    → (acc ≤ max_lamport_of acc ps) × All (λ p. p.lamport ≤ max_lamport_of acc ps) ps
unfolding max_lamport_of
max_lamport_of-ge acc [] = (omega arith, tt)
max_lamport_of-ge acc (p ∷ ps) =
    let (l, all) = max_lamport_of-ge (max_lamport acc p.lamport) ps in
    (ground (arith, l), (ground (arith, l), all))

max_lamport_of-lt :
    (acc : ℕ) (ps : List Event)
    → acc < 2 ^ 32
    → All (λ p. (p.lamport < 2 ^ 32) × (p.seq < 2 ^ 32)) ps
    → max_lamport_of acc ps < 2 ^ 32
unfolding max_lamport_of
max_lamport_of-lt acc [] h a = h
max_lamport_of-lt acc (p ∷ ps) h a =
    max_lamport_of-lt (max_lamport acc p.lamport) ps (ground (arith, h, a.0.0)) a.1

All-lt :
    (n : ℕ) (m : ℕ) (ps : List Event)
    → m < n
    → All (λ p. p.lamport ≤ m) ps
    → All (λ p. p.lamport < n) ps
All-lt n m [] h a = tt
All-lt n m (p ∷ ps) h a = (omega (arith, a.0), All-lt n m ps h a.1)

-- No parent is of the event's creator.
abbrev pub NoneOwn : Event → List Event → Type 0
NoneOwn e = All (λ p. p.creator ≢ e.creator)

-- The parents start with the creator's event before this one, and no other is of the creator.
abbrev pub FirstOwn : Event → List Event → Type 0
FirstOwn e [] = ⊥
FirstOwn e (p ∷ ps) =
    (p.creator ≡ e.creator) × (p.seq + 1 ≡ e.seq) × (self_parent e ≡ some p.id) × NoneOwn e ps

is_self_parent-none : (e : Event) (h : ℕ) → self_parent e ≡ none → is_self_parent e h ≡ false
unfolding is_self_parent
is_self_parent-none e h n = rw (is_self_parent, n) refl

is_self_parent-some : (e : Event) (h j : ℕ) → self_parent e ≡ some j → is_self_parent e h ≡ (j == h)
unfolding is_self_parent
is_self_parent-some e h j n = rw (is_self_parent, n) refl

none_own :
    (e : Event) (ps : List Event) (hs : List ℕ)
    → check_self_parents e ps hs ≡ accepted
    → All (λ h. is_self_parent e h ≡ false) hs
    → NoneOwn e ps
unfolding check_self_parents
none_own e [] hs run a = tt
none_own e (p ∷ ps) [] run a = absurd (ground arith)
none_own e (p ∷ ps) (h ∷ hs) run a =
    (ground (arith, a.0), none_own e ps hs (ground (arith, a.0)) a.1)

All-none :
    (e : Event) (hs : List ℕ) → self_parent e ≡ none → All (λ h. is_self_parent e h ≡ false) hs
All-none e [] n = tt
All-none e (h ∷ hs) n = (is_self_parent-none e h n, All-none e hs n)

All-other :
    (e : Event) (j : ℕ) (hs : List ℕ)
    → self_parent e ≡ some j
    → All (λ h. j ≢ h) hs
    → All (λ h. is_self_parent e h ≡ false) hs
All-other e j [] n a = tt
All-other e j (h ∷ hs) n a =
    (ground (arith, is_self_parent-some e h j n, a.0), All-other e j hs n a.1)

first_parent-some :
    (hs : List ℕ) (j : ℕ) → first_parent hs ≡ some j → (hs' : List ℕ) × (hs ≡ j ∷ hs')
first_parent-some [] j h = absurd (ground arith)
first_parent-some (i ∷ hs) j h = (hs, ground arith)

self_parent-first :
    (e : Event) (j : ℕ) → self_parent e ≡ some j → (hs : List ℕ) × (e.parents ≡ j ∷ hs)
unfolding self_parent
self_parent-first e j h = first_parent-some e.parents j (ground arith)

-- What the checks of the parents accept, by the self-parent.
first_own :
    (e : Event) (ps : List Event) (j : ℕ) (hs : List ℕ)
    → self_parent e ≡ some j
    → All (λ h. j ≢ h) hs
    → 0 < e.seq
    → All (λ p. (p.lamport < 2 ^ 32) × (p.seq < 2 ^ 32)) ps
    → check_self_parents e ps (j ∷ hs) ≡ accepted
    → check_seq e ps ≡ accepted
    → FirstOwn e ps
unfolding check_self_parents check_seq check_self_parent
first_own e [] j hs n nodup z small run run' = absurd (ground (arith, n))
first_own e (p ∷ ps) j hs n nodup z small run run' =
    let first = is_self_parent-some e p.id j n in
    let same = is_self_parent-some e j j n in
    (
      ground (arith, same),
      ground (arith, n, small.0.1),
      ground (arith, n, first),
      none_own e ps hs (ground (arith, same)) (All-other e j hs n nodup),
    )

both_accept : (v w : Verdict) → (v then_check w) ≡ accepted → (v ≡ accepted) × (w ≡ accepted)
both_accept accepted w h = (refl, h)
both_accept (rejected e) w h = absurd (ground arith)
both_accept panicked w h = absurd (ground arith)

epoch_accept :
    (validators : Validators) (epoch : ℕ) (e : Event)
    → epoch_validate validators epoch e ≡ accepted
    → (e.epoch ≡ epoch) × (exists validators e.creator ≡ true)
unfolding epoch_validate
epoch_accept validators epoch e h = (ground arith, ground arith)

parents_accept :
    (e : Event) (ps : List Event)
    → parents_validate e ps ≡ accepted
    → (e.lamport ≡ (max_lamport_of 0 ps + 1) % 2 ^ 32)
      × (check_self_parents e ps e.parents ≡ accepted)
      × (check_seq e ps ≡ accepted)
unfolding parents_validate
parents_accept e ps h =
    let (own, seq) =
      both_accept (check_self_parents e ps e.parents) (check_seq e ps) (ground arith) in
    (ground arith, own, seq)

-- If the checks accept an event whose parents are given, and the parents' numbers are uint32, then
-- the event is of the current epoch and of one of its validators, its Lamport time is above that of
-- every parent, and it follows its creator's own event: either it is the first, and no parent is of
-- the creator, or its first parent is the self-parent, the creator's event with the sequence number
-- before, and no other parent is of the creator.
pub validate-accepted :
    (validators : Validators) (epoch : ℕ) (e : Event) (ps : List Event)
    → All (λ p. (p.lamport < 2 ^ 32) × (p.seq < 2 ^ 32)) ps
    → validate validators epoch e ps ≡ accepted
    → (e.epoch ≡ epoch)
      × (exists validators e.creator ≡ true)
      × All (λ p. p.lamport < e.lamport) ps
      × (((e.seq ≡ 1) × NoneOwn e ps) ⊎ ((1 < e.seq) × FirstOwn e ps))
unfolding check_seq
validate-accepted validators epoch e ps small run =
    let (basic, rest) =
      both_accept (basic_validate e)
        (epoch_validate validators epoch e then_check parents_validate e ps) run in
    let (now, parents) =
      both_accept (epoch_validate validators epoch e) (parents_validate e ps) rest in
    let (s, p, f, l, q, n) = (basic_validate_iff e).0 basic in
    let (epoch_ok, creator_ok) = epoch_accept validators epoch e now in
    let (lamport, own, seq) = parents_accept e ps parents in
    let below = max_lamport_of-lt 0 ps (omega arith) small in
    let (_, above) = max_lamport_of-ge 0 ps in
    (
      epoch_ok,
      creator_ok,
      All-lt e.lamport (max_lamport_of 0 ps) ps (omega (arith, lamport, below, l)) above,
      elim (Option-cases (self_parent e)) [
        | inl none_before ↦ inl (
          ground (arith, seq, none_before),
          none_own e ps e.parents own (All-none e e.parents none_before),
        )
        | inr (j, before) ↦
            let (hs, listed) = self_parent-first e j before in
            let nodup : Nodup (j ∷ hs) = subst Nodup listed n in
            let own' : check_self_parents e ps (j ∷ hs) ≡ accepted =
              subst (λ l. check_self_parents e ps l ≡ accepted) listed own in
            inr (
              ground (arith, seq, before, s),
              first_own e ps j hs before nodup.0 s.0 small own' seq,
            )
      ],
    )
