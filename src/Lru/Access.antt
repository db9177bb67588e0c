-- ===== src/Lru/Access.antt =====
-- Reads and writes of the cache (utils/simplewlru/simplewlru.go).
use lachesis_base.Base.{
  ℕ, suc, ◌+◌, ◌-◌, ◌%◌, ◌^◌, ◌≤◌, ◌<◌, ◌≡◌, refl, sym, ap, ◌∙◌, arith, true, false, Option,
  Option-cases, none, some, List, [], ◌∷◌, ◌++◌, length, find, delete, ℕ_discrete, inl, inr,
  find-delete, delete-IsMap, ite, if_pos, if_neg,
}
use lachesis_base.Lru.{
  pos, Entry, Cache, remove_element, insert, add, peek, get, remove, contains, purge, purge_loop,
}
use mathlib.Core.List.{append-nil, append_assoc}
use lachesis_base.Lru.Weights.{weights, IsCache, weights-delete}
use lachesis_base.Lru.Bounds.{Needed, IsNormal, normalize_lem}

module _ {V : Type 0} where
  insert-IsCache :
      (k : ℕ) (v : V) (w : ℕ) (c : Cache V)
      → IsCache c
      → weights c.entries + w < 2 ^ 64
      → IsCache (insert k v w c)
  unfolding insert
  insert-IsCache k v w c h l = elim (Option-cases (find ℕ_discrete k c.entries)) [
    | inl e ↦
        let now : insert k v w c ≡ record c {
          entries = (k, record { value = v; weight = w }) ∷ c.entries;
          weight = (c.weight + w) % 2 ^ 64;
        } =
          rw (e, insert) refl in
        rw now (record {
          keyed = (e, h.keyed);
          weighed = omega (arith, h.weighed, l);
          fits = omega (arith, l);
        })
    | inr (x, e) ↦
        let now : insert k v w c ≡ record c {
          entries = (k, record { value = v; weight = w }) ∷ delete ℕ_discrete k c.entries;
          weight = ((c.weight + (2 ^ 64 - x.weight)) % 2 ^ 64 + w) % 2 ^ 64;
        } =
          rw (e, insert) refl in
        let less = weights-delete k c.entries x h.keyed e in
        let gone = find-delete ℕ_discrete k k c.entries ∙ if_pos (ℕ_discrete k k) refl none _ in
        rw now (record {
          keyed = (gone, delete-IsMap ℕ_discrete k c.entries h.keyed);
          weighed = omega (arith, h.weighed, h.fits, less, l);
          fits = omega (arith, less, l);
        })
  ]

  insert_front :
      (k : ℕ) (v : V) (w : ℕ) (c : Cache V)
      → (es : List (ℕ × Entry V)) × ((insert k v w c).entries
          ≡ (k, record { value = v; weight = w }) ∷ es)
        × ((insert k v w c).max_size ≡ c.max_size)
        × ((insert k v w c).max_weight ≡ c.max_weight)
  unfolding insert
  insert_front k v w c = elim (Option-cases (find ℕ_discrete k c.entries)) [
    | inl e ↦ (c.entries, rw (e, insert) refl, rw (e, insert) refl, rw (e, insert) refl)
    | inr (x, e) ↦ (
      delete ℕ_discrete k c.entries,
      rw (e, insert) refl,
      rw (e, insert) refl,
      rw (e, insert) refl,
    )
  ]

  peek_front :
      (k : ℕ) (e : Entry V) (kept dropped es : List (ℕ × Entry V)) (m max_weight : ℕ)
      → (k, e) ∷ es ≡ kept ++ dropped
      → e.weight ≤ max_weight
      → 0 < m
      → Needed max_weight m kept dropped
      → find ℕ_discrete k kept ≡ some e
  unfolding find
  peek_front k e [] [] es m max_weight p l z h = absurd (ground arith)
  peek_front k e [] ((j, d) ∷ ds) es m max_weight p l z h = absurd (ground arith)
  peek_front k e ((j, x) ∷ kept) dropped es m max_weight p l z h = ground arith

  -- An addition to a well-formed cache with a size that is not negative, whose weight does not wrap
  -- with the new entry, ends with a cache that is within its limits. If the new entry is itself
  -- within them, then the new value is there: it is not the one evicted.
  pub add-peek :
      (k : ℕ) (v : V) (w m : ℕ) (c : Cache V)
      → IsCache c
      → c.max_size ≡ pos m
      → weights c.entries + w < 2 ^ 64
      → (c' : Cache V) × (n : ℕ) × (add k v w c ≡ some (c', n))
        × IsNormal m (insert k v w c) c' n
        × (w ≤ c.max_weight → 0 < m → peek k c' ≡ some v)
  unfolding peek
  add-peek k v w m c h s l =
      let (es, front, size', limit) = insert_front k v w c in
      let (c', n, run, done) =
        normalize_lem (suc (length (insert k v w c).entries)) m (insert k v w c)
          (insert-IsCache k v w c h l) (size' ∙ s) (omega arith) in
      let there = λ (fits : w ≤ c.max_weight) (size : 0 < m).
        peek_front k (record { value = v; weight = w }) c'.entries done.dropped es m
          (insert k v w c).max_weight (sym front ∙ done.split) (omega (arith, limit, fits)) size
          done.needed in
      (c', n, run, done, λ fits size. rw (peek, there fits size) refl)

  find_moved :
      (k j : ℕ) (x : Entry V) (l : List (ℕ × Entry V))
      → find ℕ_discrete k l ≡ some x
      → find ℕ_discrete j ((k, x) ∷ delete ℕ_discrete k l) ≡ find ℕ_discrete j l
  unfolding find
  find_moved k j x l e = elim (ℕ_discrete k j) [
    | yes p ↦ rw (if_pos _ p) (sym e ∙ ap (λ i. find ℕ_discrete i l) p)
    | no p ↦ rw (if_neg _ p) (find-delete ℕ_discrete k j l ∙ if_neg (ℕ_discrete k j) p none _)
  ]

  -- `Get` moves the entry to the front and changes nothing else: every key finds what it found, the
  -- weight is as exact as it was, and the caller has the value that `Peek` shows.
  pub get-peek :
      (k : ℕ) (c : Cache V)
      → IsCache c
      → ((get k c).1 ≡ peek k c) × IsCache (get k c).0 × ((j : ℕ) → peek j (get k c).0 ≡ peek j c)
  unfolding get peek
  get-peek k c h = elim (Option-cases (find ℕ_discrete k c.entries)) [
    | inl e ↦
        let now : get k c ≡ (c, none) = rw (e, get) refl in rw (now, peek, e) (refl, h, λ j. refl)
    | inr (x, e) ↦
        let moved = record c { entries = (k, x) ∷ delete ℕ_discrete k c.entries } in
        let now : get k c ≡ (moved, some x.value) = rw (e, get) refl in
        let seen : peek k c ≡ some x.value = rw (e, peek) refl in
        let less = weights-delete k c.entries x h.keyed e in
        let gone = find-delete ℕ_discrete k k c.entries ∙ if_pos (ℕ_discrete k k) refl none _ in
        rw (now, seen)
          (
            refl,
            record {
              keyed = (gone, delete-IsMap ℕ_discrete k c.entries h.keyed);
              weighed = omega (arith, h.weighed, less);
              fits = omega (arith, h.fits, less);
            },
            λ j.
                ap (λ o. elim o [ none ↦ none | some y ↦ some y.value ])
                  (find_moved k j x c.entries e),
          )
  ]

  abbrev value_of : Option (Entry V) → Option V
  value_of o = elim o [ none ↦ none | some e ↦ some e.value ]

  peek_ite :
      {P : Type 0} (d : Dec P) (o : Option (Entry V))
      → value_of (ite d none o) ≡ ite d none (value_of o)
  peek_ite (yes p) o = refl
  peek_ite (no p) o = refl

  -- `Remove` reports whether the key was there, and takes it and its weight, and nothing else, out of
  -- the cache.
  pub remove-peek :
      (k : ℕ) (c : Cache V)
      → IsCache c
      → ((remove k c).1 ≡ contains k c)
        × IsCache (remove k c).0
        × ((j : ℕ) → peek j (remove k c).0 ≡ ite (ℕ_discrete k j) none (peek j c))
  unfolding remove remove_element contains peek
  remove-peek k c h = elim (Option-cases (find ℕ_discrete k c.entries)) [
    | inl e ↦
        let now : remove k c ≡ (c, false) = rw (e, remove) refl in
        let unseen : contains k c ≡ false = rw (e, contains) refl in
        rw (now, unseen)
          (
            refl,
            h,
            λ j. elim (ℕ_discrete k j) [
              | yes q ↦ rw (if_pos _ q, ← q, peek, e) refl
              | no q ↦ rw (if_neg _ q) refl
            ],
          )
    | inr (x, e) ↦
        let rest = delete ℕ_discrete k c.entries in
        let now : remove k c ≡ (remove_element (k, x) rest c, true) = rw (e, remove) refl in
        let seen : contains k c ≡ true = rw (e, contains) refl in
        let less = weights-delete k c.entries x h.keyed e in
        rw (now, seen)
          (
            refl,
            record {
              keyed = delete-IsMap ℕ_discrete k c.entries h.keyed;
              weighed = omega (arith, h.weighed, h.fits, less);
              fits = omega (arith, h.fits, less);
            },
            λ j.
                ap (λ (o : Option (Entry V)). value_of o) (find-delete ℕ_discrete k j c.entries)
                ∙ peek_ite (ℕ_discrete k j) (find ℕ_discrete j c.entries),
          )
  ]

  -- The entries as the callback sees them.
  abbrev pub values : List (ℕ × Entry V) → List (ℕ × V)
  values [] = []
  values ((k, e) ∷ es) = (k, e.value) ∷ values es

  purge_loop_lem :
      (es : List (ℕ × Entry V)) (c : Cache V)
      → c.weight ≡ weights es
      → weights es < 2 ^ 64
      → ((purge_loop es c).entries ≡ [])
        × ((purge_loop es c).weight ≡ 0)
        × ((purge_loop es c).evictions ≡ c.evictions ++ values es)
  unfolding purge_loop remove_element
  purge_loop_lem [] c h l = (refl, h, sym (append-nil c.evictions))
  purge_loop_lem ((k, e) ∷ es) c h l =
      let (gone, none_left, log) =
        purge_loop_lem es (remove_element (k, e) es c) (omega (arith, h, l)) (omega (arith, l)) in
      (gone, none_left, log ∙ append_assoc c.evictions ((k, e.value) ∷ []) (values es))

  -- `Purge` calls back with every entry, and leaves a cache that is empty and weighs nothing.
  pub purge_lem :
      (c : Cache V)
      → IsCache c
      → ((purge c).entries ≡ [])
        × ((purge c).weight ≡ 0)
        × ((purge c).evictions ≡ c.evictions ++ values c.entries)
  unfolding purge_loop remove_element
  purge_lem c h = purge_loop_lem c.entries c h.weighed h.fits
