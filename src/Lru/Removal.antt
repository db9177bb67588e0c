-- ===== src/Lru/Removal.antt =====
-- The removal of one entry from the cache (`Remove` and `RemoveOldest` of
-- utils/simplewlru/simplewlru.go), the list of its keys, and an `Add` that
-- evicts nothing.
use lachesis_base.Base.{
  ℕ, suc, ◌+◌, ◌%◌, ◌^◌, ◌≤◌, ◌<◌, ◌≡◌, ◌≢◌, refl, sym, ap, subst, ◌∙◌, arith, false, Option, none,
  some, List, [], ◌∷◌, ◌++◌, Option-cases, inl, inr, length, In, ite, if_pos, if_neg, ℕ_discrete,
  find, find-append, delete, IsMap, IsMap-append_head, length-append,
}
use lachesis_base.Lru.{
  Entry, Cache, keys, rev_keys, peek, get_oldest, remove, remove_element, remove_oldest, back,
  drop_back, add, insert, normalize, exceeds, is_over, pos,
}
use lachesis_base.Lru.Weights.{IsCache, weights, drop_back_lem, back-none}
use lachesis_base.Lru.Bounds.{remove_oldest_lem}
use lachesis_base.Lru.Access.{remove-peek}

module _ {V : Type 0} where
  -- The cache `c'` is the cache `c` without its key `k`.
  pub record Removes (k : ℕ) (c c' : Cache V) : Type 0 where
    pub there : peek k c ≢ none
    pub rest : (j : ℕ) → peek j c' ≡ ite (ℕ_discrete k j) none (peek j c)
    pub shorter : suc (length c'.entries) ≡ length c.entries
    pub cache : IsCache c'

  length-delete :
      (k : ℕ) (l : List (ℕ × Entry V)) (e : Entry V)
      → IsMap ℕ_discrete l
      → find ℕ_discrete k l ≡ some e
      → suc (length (delete ℕ_discrete k l)) ≡ length l
  unfolding find delete
  length-delete k [] e h f = ground arith
  length-delete k ((j, x) ∷ l) e h f = elim (ℕ_discrete j k) [
    | yes p ↦ rw (if_pos _ p, gone l (subst (λ i. find ℕ_discrete i l ≡ none) p h.0)) refl
    | no p ↦ rw (if_neg _ p) (ap suc (length-delete k l e h.1 (ground arith)))
  ]
    where
      gone : (m : List (ℕ × Entry V)) → find ℕ_discrete k m ≡ none → delete ℕ_discrete k m ≡ m
      gone [] f = refl
      gone ((j, x) ∷ m) f = ground (arith, gone m)

  peek_found :
      (k : ℕ) (a : V) (c : Cache V)
      → peek k c ≡ some a
      → (e : Entry V) × (find ℕ_discrete k c.entries ≡ some e)
  unfolding peek
  peek_found k a c h = elim (Option-cases (find ℕ_discrete k c.entries)) [
    | inl n ↦ absurd (ground (arith, n, h))
    | inr p ↦ p
  ]

  pub remove-Removes :
      (k : ℕ) (a : V) (c : Cache V) → IsCache c → peek k c ≡ some a → Removes k c (remove k c).0
  unfolding remove remove_element
  remove-Removes k a c h p =
      let (e, f) = peek_found k a c p in
      let (same, cache, rest) = remove-peek k c h in
      record {
        there = λ n. absurd (ground (arith, n, p));
        rest = rest;
        shorter = rw (remove, f) (length-delete k c.entries e h.keyed f);
        cache = cache;
      }

  keys-In :
      (k : ℕ) (l : List (ℕ × Entry V)) (out : List ℕ) (e : Entry V)
      → find ℕ_discrete k l ≡ some e
      → In k (rev_keys l out)
  unfolding rev_keys find
  keys-In k [] out e f = absurd (ground arith)
  keys-In k ((j, x) ∷ l) out e f = elim (ℕ_discrete j k) [
    | yes p ↦ kept l (j ∷ out) (inl (sym p))
    | no p ↦ keys-In k l (j ∷ out) e (ground arith)
  ]
    where
      kept : (m : List (ℕ × Entry V)) (o : List ℕ) → In k o → In k (rev_keys m o)
      kept [] o i = i
      kept ((j, x) ∷ m) o i = kept m (j ∷ o) (inr i)

  -- `Keys` lists every key that `Peek` finds.
  pub keys_complete : (k : ℕ) (a : V) (c : Cache V) → peek k c ≡ some a → In k (keys c)
  unfolding keys
  keys_complete k a c p = let (e, f) = peek_found k a c p in keys-In k c.entries [] e f

  delete_le : (k : ℕ) (l : List (ℕ × Entry V)) → length (delete ℕ_discrete k l) ≤ length l
  unfolding delete
  delete_le k [] = omega arith
  delete_le k ((j, x) ∷ l) = ground (arith, delete_le k l)

  delete_lt :
      (k : ℕ) (l : List (ℕ × Entry V)) (e : Entry V)
      → find ℕ_discrete k l ≡ some e
      → length (delete ℕ_discrete k l) < length l
  unfolding find delete
  delete_lt k [] e f = absurd (ground arith)
  delete_lt k ((j, x) ∷ l) e f = elim (ℕ_discrete j k) [
    | yes p ↦ rw (if_pos _ p) (omega (arith, delete_le k l))
    | no p ↦ rw (if_neg _ p) (omega (arith, delete_lt k l e (ground arith)))
  ]

  -- A removal shortens the list, of whatever cache.
  pub remove_shorter :
      (k : ℕ) (a : V) (c : Cache V)
      → peek k c ≡ some a
      → length (remove k c).0.entries < length c.entries
  unfolding remove remove_element
  remove_shorter k a c p =
      let (e, f) = peek_found k a c p in rw (remove, f) (delete_lt k c.entries e f)

  pub oldest_shorter :
      (c : Cache V) (x : ℕ × V)
      → get_oldest c ≡ some x
      → length (remove_oldest c).entries < length c.entries
  unfolding get_oldest remove_oldest remove_element
  oldest_shorter c x g = elim (Option-cases (back c.entries)) [
    | inl n ↦ absurd (ground (arith, n, g))
    | inr ((i, e), b) ↦
        rw (remove_oldest, b)
          (omega (
            arith,
            ap length (drop_back_lem c.entries i e b),
            length-append (drop_back c.entries) ((i, e) ∷ []),
          ))
  ]

  find-append_ne :
      (j k : ℕ) (e : Entry V) (l : List (ℕ × Entry V))
      → k ≢ j
      → find ℕ_discrete j (l ++ ((k, e) ∷ [])) ≡ find ℕ_discrete j l
  unfolding find
  find-append_ne j k e [] n = rw (if_neg (ℕ_discrete k j) n (some e) none) refl
  find-append_ne j k e ((i, x) ∷ l) n = ground (arith, find-append_ne j k e l n)

  find-append_last :
      (k : ℕ) (e : Entry V) (l : List (ℕ × Entry V)) → find ℕ_discrete k (l ++ ((k, e) ∷ [])) ≢ none
  unfolding find
  find-append_last k e [] n = absurd (ground arith)
  find-append_last k e ((i, x) ∷ l) n = find-append_last k e l (ground (arith, n))

  value_of : Option (Entry V) → Option V
  value_of none = none
  value_of (some e) = some e.value

  pub get_oldest-none : (c : Cache V) → get_oldest c ≡ none → c.entries ≡ []
  unfolding get_oldest
  get_oldest-none c h = elim (Option-cases (back c.entries)) [
    | inl n ↦ back-none c.entries n
    | inr (x, e) ↦ absurd (ground (arith, e, h))
  ]

  back-Removes :
      (c : Cache V) (i : ℕ) (e : Entry V)
      → IsCache c
      → back c.entries ≡ some (i, e)
      → Removes i c (remove_oldest c) × (peek i c ≡ some e.value)
  unfolding remove_oldest remove_element peek find back value_of
  back-Removes c i e h b =
      let parts = drop_back_lem c.entries i e b in
      let l = drop_back c.entries in
      let now : (remove_oldest c).entries ≡ l = rw (remove_oldest, b) refl in
      let gone : find ℕ_discrete i l ≡ none =
        IsMap-append_head ℕ_discrete i e l [] (subst (IsMap ℕ_discrete) parts h.keyed) in
      let found : find ℕ_discrete i c.entries ≡ some e =
        ap (find ℕ_discrete i) parts
        ∙ find-append ℕ_discrete i l ((i, e) ∷ []) gone
        ∙ if_pos (ℕ_discrete i i) refl (some e) none in
      let cache : IsCache (remove_oldest c) = elim (remove_oldest_lem c h) [
        | inl empty ↦ absurd (ground (arith, ap back empty, b))
        | inr p ↦ p.1
      ] in
      (
        record {
          there = λ n. absurd (ground (arith, ap value_of found, n));
          rest = λ j. elim (ℕ_discrete i j) [
            | yes q ↦ rw (if_pos (ℕ_discrete i j) q) (
                ap value_of
                  (ap (find ℕ_discrete j) now ∙ ap (λ k. find ℕ_discrete k l) (sym q) ∙ gone))
            | no n ↦ rw (if_neg (ℕ_discrete i j) n) (
                ap value_of (
                  ap (find ℕ_discrete j) now
                  ∙ sym (find-append_ne j i e l n)
                  ∙ sym (ap (find ℕ_discrete j) parts)))
          ];
          shorter = omega (arith, ap length now, ap length parts, length-append l ((i, e) ∷ []));
          cache = cache;
        },
        ap value_of found,
      )

  -- `RemoveOldest` takes the key that `GetOldest` shows, and nothing else, out of the cache.
  pub oldest-Removes :
      (c : Cache V) (k : ℕ) (a : V)
      → IsCache c
      → get_oldest c ≡ some (k, a)
      → Removes k c (remove_oldest c) × (peek k c ≡ some a)
  unfolding get_oldest
  oldest-Removes c k a h g = elim (Option-cases (back c.entries)) [
    | inl n ↦ absurd (ground (arith, n, g))
    | inr ((i, e), b) ↦
        let same : some (i, e.value) ≡ some (k, a) = sym (rw (get_oldest, b) refl) ∙ g in
        subst (λ (p : ℕ × V). Removes p.0 c (remove_oldest c) × (peek p.0 c ≡ some p.1))
          (ap (the (i, e.value)) same) (back-Removes c i e h b)
  ]
    where
      the : ℕ × V → Option (ℕ × V) → ℕ × V
      the d none = d
      the d (some x) = x

  -- `Add` of a new key that fits puts it in front and evicts nothing.
  pub add_fits :
      (k : ℕ) (v : V) (w m : ℕ) (c : Cache V)
      → IsCache c
      → peek k c ≡ none
      → c.max_size ≡ pos m
      → weights c.entries + w ≤ c.max_weight
      → c.max_weight < 2 ^ 64
      → length c.entries < m
      → (c' : Cache V) × (add k v w c ≡ some (c', 0))
        × IsCache c'
        × ((j : ℕ) → peek j c' ≡ ite (ℕ_discrete k j) (some v) (peek j c))
  unfolding insert peek normalize exceeds find value_of
  add_fits k v w m c h p s light wide short = elim (Option-cases (find ℕ_discrete k c.entries)) [
    | inl e ↦
        let c' = record c {
          entries = (k, record { value = v; weight = w }) ∷ c.entries;
          weight = (c.weight + w) % 2 ^ 64;
        } in
        let now : insert k v w c ≡ c' = rw (e, insert) refl in
        let fits : is_over c' ≡ false = ground (arith, h.weighed, light, wide, short, s) in
        (
          c',
          rw (now, fits) refl,
          record {
            keyed = (e, h.keyed);
            weighed = omega (arith, h.weighed, light, wide);
            fits = omega (arith, light, wide);
          },
          seen,
        )
    | inr (x, e) ↦ absurd (ground (arith, e, p))
  ]
    where
      seen :
          (j : ℕ)
          → peek j (record c {
            entries = (k, record { value = v; weight = w }) ∷ c.entries;
            weight = (c.weight + w) % 2 ^ 64;
          })
            ≡ ite (ℕ_discrete k j) (some v) (peek j c)
      seen j = elim (ℕ_discrete k j) [
        | yes q ↦
            ap value_of (
              if_pos (ℕ_discrete k j) q (some (record { value = v; weight = w }))
                (find ℕ_discrete j c.entries))
            ∙ sym (if_pos (ℕ_discrete k j) q (some v) (peek j c))
        | no q ↦
            ap value_of (
              if_neg (ℕ_discrete k j) q (some (record { value = v; weight = w }))
                (find ℕ_discrete j c.entries))
            ∙ sym (if_neg (ℕ_discrete k j) q (some v) (peek j c))
      ]
