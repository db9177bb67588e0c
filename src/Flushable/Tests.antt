-- ===== src/Flushable/Tests.antt =====
-- The flushable database over an association list as its tree and a log of writes below.
use lachesis_base.Base.{
  All, ℕ, ◌≡◌, refl, sym, ap, ◌∙◌, subst, ◌*◌, arith, Bool, true, false, Option, none, some, List,
  [], ◌∷◌, ◌++◌, ite, find, find-put, put-IsMap, IsMap, if_pos, if_neg, length, ℕ_discrete,
}
use lachesis_base.Base
use lachesis_base.Flushable.{
  Bytes, ok, done, TreeOps, StoreOps, Flushable, CacheBatch, put, delete, get, flush, batch_write,
  replay, err_nil,
}
use lachesis_base.Flushable.Laws.{
  bytes_discrete, IsTree, IsStore, over, last_write, first_some, last_write-append,
}
use lachesis_base.Flushable.Views.{put-get, presence}
use lachesis_base.Flushable.Flushes.{flush-get}
use lachesis_base.Flushable.Batches.{IsKeyed, deletes, replay-batch_write}

abbrev Pairs : Type 0
Pairs = List (Bytes × Option Bytes)

abbrev Tree : Type 0
Tree = (m : Pairs) × IsMap bytes_discrete m

abbrev tree : TreeOps Tree
tree = record {
  empty = ([], tt);
  put = λ k v t. (Base.put bytes_discrete k v t.0, put-IsMap bytes_discrete k v t.0 t.1);
  get = λ k t. find bytes_discrete k t.0;
  entries = λ t. t.0;
}

tree-IsTree : IsTree tree
unfolding find
tree-IsTree = record {
  get-empty = λ k. refl;
  get-put = λ k j v t. find-put bytes_discrete k j v t.0;
  find-entries = λ k t. refl;
  entries-IsMap = λ t. t.1;
}

abbrev shown : Option (Option Bytes) → Option Bytes
shown none = none
shown (some v) = v

-- A batch of two writes is large.
abbrev store : StoreOps Pairs Pairs
store = record {
  has = λ s k. presence (ok (shown (last_write k s)));
  get = λ s k. ok (shown (last_write k s));
  close = λ s. (s, none);
  new_batch = [];
  batch_put = λ k v b. (b ++ ((k, some v) ∷ []), none);
  batch_delete = λ k b. (b ++ ((k, none) ∷ []), none);
  value_size = λ b. length b * 60_000;
  write = λ b s. (s ++ b, none);
  reset = λ b. [];
}

store-IsStore : IsStore store
store-IsStore = record {
  pending = λ b. b;
  pending-new = refl;
  pending-reset = λ b. refl;
  pending-put = λ k v b h. refl;
  pending-delete = λ k b h. refl;
  get-write = λ k b s h.
      ap (λ o. ok (shown o)) (last_write-append k s b) ∙ shows (last_write k b) (last_write k s);
  get-write_other = λ k b s h.
      ap (λ o. ok (shown o)) (last_write-append k s b ∙ ap (λ o. first_some o (last_write k s)) h);
}
  where
    shows : (o p : Option (Option Bytes)) → ok (shown (first_some o p)) ≡ over o (ok (shown p))
    shows none p = refl
    shows (some v) p = refl

abbrev below : Pairs
below = (1 ∷ [], some (7 ∷ [])) ∷ (2 ∷ [], some (8 ∷ [])) ∷ []

-- One key is written and one is deleted.
abbrev waiting : Tree
waiting = tree.put (2 ∷ []) none (tree.put (1 ∷ []) (some (9 ∷ [])) tree.empty)

abbrev database : Flushable Tree Pairs
database = record { underlying = below; modified = some waiting; size_estimation = 259 }

flush_runs :
    (flush tree store database).0.underlying
    ≡ below ++ ((1 ∷ [], some (9 ∷ [])) ∷ (2 ∷ [], none) ∷ [])
unfolding flush Base.put bytes_discrete ℕ_discrete
flush_runs = refl

put-get_example :
    ((put tree store (some (1 ∷ [])) (some (5 ∷ [])) database).1 ≡ done)
    × (get tree store (2 ∷ []) (put tree store (some (1 ∷ [])) (some (5 ∷ [])) database).0
        ≡ ite
            (bytes_discrete (1 ∷ []) (2 ∷ []))
            (ok (some (5 ∷ [])))
            (get tree store (2 ∷ []) database))
    × ((delete tree store (1 ∷ []) database).1 ≡ done)
    × (get tree store (2 ∷ []) (delete tree store (1 ∷ []) database).0
        ≡ ite (bytes_discrete (1 ∷ []) (2 ∷ [])) (ok none) (get tree store (2 ∷ []) database))
put-get_example = put-get tree store tree-IsTree database waiting (1 ∷ []) (5 ∷ []) (2 ∷ []) refl

flush-get_example :
    (get tree store (2 ∷ []) (flush tree store database).0 ≡ get tree store (2 ∷ []) database)
    × ((flush tree store database).1 ≡ done
        → ((flush tree store database).0.modified ≡ some tree.empty)
          × (store.get (flush tree store database).0.underlying (2 ∷ [])
              ≡ get tree store (2 ∷ []) database))
flush-get_example = flush-get tree store tree-IsTree store-IsStore database waiting (2 ∷ []) refl

-- The fourth write puts a value for a nil key.
abbrev keyed_writes : List (Option Bytes × Option Bytes)
keyed_writes =
    (some (2 ∷ []), some (3 ∷ [])) ∷ (some (1 ∷ []), none) ∷ (some (2 ∷ []), some (4 ∷ [])) ∷ []

abbrev batch : CacheBatch
batch = record { writes = keyed_writes ++ ((none, some (5 ∷ [])) ∷ []); size = 9 }

replay-batch_write_example :
    (All IsKeyed (keyed_writes ++ ((none, some (5 ∷ [])) ∷ []))
      → replay (put tree store) (deletes tree store) batch database
        ≡ batch_write tree store batch database)
    × ((pre post : List (Option Bytes × Option Bytes)) (v : Bytes)
        → keyed_writes ++ ((none, some (5 ∷ [])) ∷ []) ≡ pre ++ ((none, some v) ∷ post)
        → All IsKeyed pre
        → replay (put tree store) (deletes tree store) batch database
          ≡ ((batch_write tree store (record { writes = pre; size = 9 }) database).0, err_nil))
replay-batch_write_example = replay-batch_write tree store batch database waiting refl
