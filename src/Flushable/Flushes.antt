-- ===== src/Flushable/Flushes.antt =====
-- kvdb/flushable/flushable.go, `Flush`: readers do not see it.
use lachesis_base.Base.{
  ℕ, ◌≡◌, refl, sym, ap, ◌∙◌, arith, Option, none, some, List, [], ◌∷◌, ◌++◌, Option-cases,
  Bool-cases, inl, inr, ltb,
}
use mathlib.Core.List.{append_assoc, append-nil}
use lachesis_base.Flushable.{
  Bytes, Result, Done, done, err_closed, TreeOps, StoreOps, Flushable, get, flush, flush_loop,
  batch_one, ideal_batch_size, flushed,
}
use lachesis_base.Flushable.Laws.{
  IsTree, IsStore, over, last_write, first_some, last_write-append, last_write-find,
}
use lachesis_base.Flushable.Views.{get_open}

module _ {T S B : Type 0} (tree : TreeOps T) (store : StoreOps S B) (laws : IsStore store) where
  batch_one-pending :
      (k : Bytes) (v : Option Bytes) (b : B)
      → (batch_one tree store k v b).1 ≡ none
      → laws.pending (batch_one tree store k v b).0 ≡ laws.pending b ++ ((k, v) ∷ [])
  batch_one-pending k none b h = laws.pending-delete k b h
  batch_one-pending k (some v) b h = laws.pending-put k v b h

  over_over :
      (o p : Option (Option Bytes)) (r : Result (Option Bytes))
      → over o (over p r) ≡ over (first_some o p) r
  over_over none p r = refl
  over_over (some v) p r = refl

  -- The four ways of a turn of the loop.
  data IsTurn (j : Bytes) (v : Option Bytes) (es : List (Bytes × Option Bytes)) (b : B) (s : S)
      (r : S × Option ℕ) : Type 0 where
    refused : (e : ℕ) → r ≡ (s, some e) → IsTurn j v es b s r
    kept :
        (b' : B)
        → laws.pending b' ≡ laws.pending b ++ ((j, v) ∷ [])
        → r ≡ flush_loop tree store es b' s
        → IsTurn j v es b s r
    unwritten :
        (b' : B) (e : ℕ)
        → laws.pending b' ≡ laws.pending b ++ ((j, v) ∷ [])
        → r ≡ ((store.write b' s).0, some e)
        → IsTurn j v es b s r
    written :
        (b' : B)
        → laws.pending b' ≡ laws.pending b ++ ((j, v) ∷ [])
        → (store.write b' s).1 ≡ none
        → r ≡ flush_loop tree store es (store.reset b') (store.write b' s).0
        → IsTurn j v es b s r

  turn :
      (j : Bytes) (v : Option Bytes) (es : List (Bytes × Option Bytes)) (b : B) (s : S)
      → IsTurn j v es b s (flush_loop tree store ((j, v) ∷ es) b s)
  unfolding flush_loop
  turn j v es b s =
      let b' = (batch_one tree store j v b).0 in
      elim (Option-cases (batch_one tree store j v b).1) [
        | inr (e, x) ↦ refused e (rw (flush_loop, x) refl)
        | inl x ↦ elim (Bool-cases (ltb ideal_batch_size (store.value_size b'))) [
          | inr y ↦ kept b' (batch_one-pending j v b x) (rw (flush_loop, x, y) refl)
          | inl y ↦ elim (Option-cases (store.write b' s).1) [
            | inr (e, z) ↦
                unwritten b' e (batch_one-pending j v b x) (rw (flush_loop, x, y, z) refl)
            | inl z ↦ written b' (batch_one-pending j v b x) z (rw (flush_loop, x, y, z) refl)
          ]
        ]
      ]

  append_one :
      (a : List (Bytes × Option Bytes)) (x : Bytes × Option Bytes)
      (l es : List (Bytes × Option Bytes))
      → l ≡ a ++ (x ∷ [])
      → l ++ es ≡ a ++ (x ∷ es)
  append_one a x l es p = ap (λ m. m ++ es) p ∙ append_assoc a (x ∷ []) es

  -- A loop that does not fail makes the writes of the batch and of the tree.
  flush_loop_done :
      (k : Bytes) (es : List (Bytes × Option Bytes)) (b : B) (s : S)
      → (flush_loop tree store es b s).1 ≡ none
      → store.get (flush_loop tree store es b s).0 k
        ≡ over (last_write k (laws.pending b ++ es)) (store.get s k)
  unfolding flush_loop
  flush_loop_done k [] b s h =
      laws.get-write k b s h
      ∙ ap (λ l. over (last_write k l) (store.get s k)) (sym (append-nil (laws.pending b)))
  flush_loop_done k ((j, v) ∷ es) b s h = elim (turn j v es b s) [
    | refused e r ↦ absurd (ground (arith, ap (λ x. x.1) r, h))
    | unwritten b' e p r ↦ absurd (ground (arith, ap (λ x. x.1) r, h))
    | kept b' p r ↦
        ap (λ x. store.get x.0 k) r
        ∙ flush_loop_done k es b' s (sym (ap (λ x. x.1) r) ∙ h)
        ∙ ap (λ l. over (last_write k l) (store.get s k))
            (append_one (laws.pending b) (j, v) (laws.pending b') es p)
    | written b' p z r ↦
        let s' = (store.write b' s).0 in
        ap (λ x. store.get x.0 k) r
        ∙ flush_loop_done k es (store.reset b') s' (sym (ap (λ x. x.1) r) ∙ h)
        ∙ ap (λ l. over (last_write k (l ++ es)) (store.get s' k)) (laws.pending-reset b')
        ∙ ap (over (last_write k es)) (laws.get-write k b' s z)
        ∙ over_over (last_write k es) (last_write k (laws.pending b')) (store.get s k)
        ∙ ap (λ o. over o (store.get s k)) (sym (last_write-append k (laws.pending b') es))
        ∙ ap (λ l. over (last_write k l) (store.get s k))
            (append_one (laws.pending b) (j, v) (laws.pending b') es p)
  ]

  neither : (o p : Option (Option Bytes)) → first_some o p ≡ none → (o ≡ none) × (p ≡ none)
  neither none p h = (refl, h)
  neither (some x) p h = absurd (ground (arith, h))

  -- A loop, also one that fails, leaves the keys that neither the batch nor the tree has.
  flush_loop_other :
      (k : Bytes) (es : List (Bytes × Option Bytes)) (b : B) (s : S)
      → last_write k (laws.pending b ++ es) ≡ none
      → store.get (flush_loop tree store es b s).0 k ≡ store.get s k
  unfolding flush_loop
  flush_loop_other k [] b s h =
      laws.get-write_other k b s (ap (last_write k) (sym (append-nil (laws.pending b))) ∙ h)
  flush_loop_other k ((j, v) ∷ es) b s h = elim (turn j v es b s) [
    | refused e r ↦ ap (λ x. store.get x.0 k) r
    | kept b' p r ↦
        ap (λ x. store.get x.0 k) r
        ∙ flush_loop_other k es b' s
            (ap (last_write k) (append_one (laws.pending b) (j, v) (laws.pending b') es p) ∙ h)
    | unwritten b' e p r ↦
        ap (λ x. store.get x.0 k) r ∙ laws.get-write_other k b' s ((parts b' p).1)
    | written b' p z r ↦
        ap (λ x. store.get x.0 k) r
        ∙ flush_loop_other k es (store.reset b') (store.write b' s).0
            (ap (λ l. last_write k (l ++ es)) (laws.pending-reset b') ∙ (parts b' p).0)
        ∙ laws.get-write_other k b' s ((parts b' p).1)
  ]
    where
      parts :
          (b' : B)
          → laws.pending b' ≡ laws.pending b ++ ((j, v) ∷ [])
          → (last_write k es ≡ none) × (last_write k (laws.pending b') ≡ none)
      parts b' p = neither (last_write k es) (last_write k (laws.pending b')) (
          sym (last_write-append k (laws.pending b') es)
          ∙ ap (last_write k) (append_one (laws.pending b) (j, v) (laws.pending b') es p)
          ∙ h)

module _ {T S B : Type 0} (tree : TreeOps T) (store : StoreOps S B) (tree_laws : IsTree tree)
    (laws : IsStore store) where
  -- The writes that wait, as the flush hands them over.
  entries-last_write :
      (k : Bytes) (t : T)
      → last_write k (laws.pending store.new_batch ++ tree.entries t) ≡ tree.get k t
  entries-last_write k t =
      ap (λ l. last_write k (l ++ tree.entries t)) laws.pending-new
      ∙ last_write-find k (tree.entries t) (tree_laws.entries-IsMap t)
      ∙ tree_laws.find-entries k t

  abbrev flush_of : Flushable T S → Option T → Flushable T S × Done
  flush_of w m = elim m [
    | none ↦ (w, err_closed)
    | some t ↦
        flushed tree store w (flush_loop tree store (tree.entries t) store.new_batch w.underlying)
  ]

  flush_open :
      (w : Flushable T S) (t : T)
      → w.modified ≡ some t
      → flush tree store w
        ≡ flushed tree store w (flush_loop tree store (tree.entries t) store.new_batch w.underlying)
  unfolding flush
  flush_open w t o = ap (flush_of w) o

  -- Readers of an open database do not see a flush, however it ends: also after a flush that fails
  -- part way every key shows what it showed. A flush that does not fail leaves nothing that waits,
  -- and the database below holds what readers see.
  pub flush-get :
      (w : Flushable T S) (t : T) (k : Bytes)
      → w.modified ≡ some t
      → (get tree store k (flush tree store w).0 ≡ get tree store k w)
        × ((flush tree store w).1 ≡ done
            → ((flush tree store w).0.modified ≡ some tree.empty)
              × (store.get (flush tree store w).0.underlying k ≡ get tree store k w))
  flush-get w t k o =
      after (flush_loop tree store (tree.entries t) store.new_batch w.underlying) refl
    where
      out : S × Option ℕ
      out = flush_loop tree store (tree.entries t) store.new_batch w.underlying

      flush_out : (r : S × Option ℕ) → out ≡ r → flush tree store w ≡ flushed tree store w r
      flush_out r e = flush_open w t o ∙ ap (flushed tree store w) e

      after :
          (r : S × Option ℕ)
          → out ≡ r
          → (get tree store k (flush tree store w).0 ≡ get tree store k w)
            × ((flush tree store w).1 ≡ done
                → ((flush tree store w).0.modified ≡ some tree.empty)
                  × (store.get (flush tree store w).0.underlying k ≡ get tree store k w))
      after (s, none) e =
          let f = flush_out (s, none) e in
          let below : store.get s k ≡ get tree store k w =
            ap (λ x. store.get x.0 k) (sym e)
            ∙ flush_loop_done tree store laws k (tree.entries t) store.new_batch w.underlying
                (ap (λ x. x.1) e)
            ∙ ap (λ x. over x (store.get w.underlying k)) (entries-last_write k t)
            ∙ sym (get_open tree store w t k o) in
          (
            ap (λ x. get tree store k x.0) f
                ∙ get_open tree store (flushed tree store w (s, none)).0 tree.empty k refl
                ∙ ap (λ x. over x (store.get s k)) (tree_laws.get-empty k)
                ∙ below,
            λ d. (ap (λ x. x.0.modified) f, ap (λ x. store.get x.0.underlying k) f ∙ below),
          )
      after (s, some err) e =
          let f = flush_out (s, some err) e in
          (
            ap (λ x. get tree store k x.0) f
                ∙ get_open tree store (record w { underlying = s }) t k o
                ∙ unseen s (ap (λ x. x.0) e) (tree.get k t) refl
                ∙ sym (get_open tree store w t k o),
            λ d. absurd (ground (arith, ap (λ x. x.1) f, d)),
          )
        where
          unseen :
              (s : S)
              → out.0 ≡ s
              → (x : Option (Option Bytes)) → tree.get k t ≡ x
              → over (tree.get k t) (store.get s k) ≡ over (tree.get k t) (store.get w.underlying k)
          unseen s e none n =
              ap (λ x. over x (store.get s k)) n
              ∙ ap (λ x. store.get x k) (sym e)
              ∙ flush_loop_other tree store laws k (tree.entries t) store.new_batch w.underlying
                  (entries-last_write k t ∙ n)
              ∙ ap (λ x. over x (store.get w.underlying k)) (sym n)
          unseen s e (some v) n =
              ap (λ x. over x (store.get s k)) n
              ∙ ap (λ x. over x (store.get w.underlying k)) (sym n)
