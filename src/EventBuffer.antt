-- ===== src/EventBuffer.antt =====
-- gossip/dagordering/event_buffer.go: the buffer that holds events until their parents are known.
-- A `*event` is an index into `objects`. The application behind the callbacks is a state `S`. The
-- lock makes every operation a step. Peers and errors of the application are numbers.
pub mod Stable
pub mod Turns
pub mod Kept
pub mod Safety
pub mod Told
pub mod Evict
pub mod Spill
pub mod Effects
pub mod Held
pub mod Pushed
pub mod Leaks
pub mod Rechecks
pub mod Fuel
pub mod Tests
use lachesis_base.Base.{
  ℕ, zero, suc, ◌+◌, ◌^◌, ◌-◌, ◌%◌, Bool, true, false, ◌||◌, not, Option, none, some, List, [], ◌∷◌,
  ◌++◌, ◌==◌, if◌then◌else◌, ◌>>=◌, ltb, length, get_or, set,
}
use lachesis_base.Dag.{Event, Metric, size}
use lachesis_base.Lru.{
  pos, Entry, Cache, add, remove, remove_oldest, get_oldest, peek, contains, keys,
}

pub data Err : Type 0 where
  duplicate_event : Err
  already_connected_event : Err
  spilled_event : Err
  app_error : ℕ → Err

-- The type `event`.
pub record BufferedEvent : Type 0 where
  pub event : Event
  pub peer : ℕ
  pub err : Option Err
  pub released : Bool

pub record Callback (S : Type 0) : Type 0 where
  pub process : Event → S → S × Option ℕ
  pub released : Option (Event → ℕ → Option Err → S → S)
  pub get : S → ℕ → Option Event
  pub exists : S → ℕ → Bool
  pub check : Option (S → Event → List Event → Option ℕ)
  pub is_important : Option (Event → Bool)

pub record EventsBuffer (S : Type 0) : Type 0 where
  pub incompletes : Cache ℕ
  pub objects : List BufferedEvent
  pub app : S
  pub limit : Metric

-- math.MaxInt32
abbrev pub max_int32 : ℕ
max_int32 = 2 ^ 31 - 1

abbrev pub new_event : Event → ℕ → BufferedEvent
new_event event peer = record { event = event; peer = peer; err = none; released = false }

-- What a pointer that points nowhere would give; the code has none.
abbrev pub nowhere : BufferedEvent
nowhere =
    new_event
      (record { epoch = 0; seq = 0; frame = 0; creator = 0; parents = []; lamport = 0; id = 0 }) 0

unfoldable pub has_parent : ℕ → List ℕ → Bool
has_parent h [] = false
has_parent h (p ∷ ps) = if p == h then true else has_parent h ps

abbrev pub err_or : Option Err → Err → Option Err
err_or none err = some err
err_or (some e) err = some e

-- `getIncompleteEventsList` over the keys.
unfoldable pub peek_all : Cache ℕ → List ℕ → List ℕ
peek_all c [] = []
peek_all c (k ∷ ks) = elim (peek k c) [ none ↦ peek_all c ks | some a ↦ a ∷ peek_all c ks ]

abbrev pub list_or : Option (List ℕ) → List ℕ → List ℕ
list_or none l = l
list_or (some l) m = l

-- Whether the loops of `spillIncompletes` go on.
abbrev pub is_above : Metric → Cache ℕ → Bool
is_above limit c = ltb limit.num (length c.entries % 2 ^ 32) || ltb limit.size c.weight

module _ {S : Type 0} where
  -- `New`
  abbrev pub new : Metric → S → EventsBuffer S
  new limit app = record {
    incompletes = record {
      max_size = pos max_int32;
      weight = 0;
      max_weight = max_int32;
      entries = [];
      evictions = [];
    };
    objects = [];
    app = app;
    limit = limit;
  }

  abbrev pub object : EventsBuffer S → ℕ → BufferedEvent
  object buf a = get_or buf.objects a nowhere

  abbrev pub id_of : EventsBuffer S → ℕ → ℕ
  id_of buf a = (object buf a).event.id

  abbrev pub update : ℕ → BufferedEvent → EventsBuffer S → EventsBuffer S
  update a o buf = record buf { objects = set buf.objects a o }

  -- `buf.incompletes.Remove`
  abbrev pub remove_id : ℕ → EventsBuffer S → EventsBuffer S
  remove_id id buf = record buf { incompletes = (remove id buf.incompletes).0 }

  -- `buf.incompletes.Add`; the model of the cache gives it fuel enough, so that `none` is unused.
  unfoldable pub add_object : ℕ → EventsBuffer S → EventsBuffer S
  add_object a buf =
      let e = (object buf a).event in
      elim (add e.id a (size e) buf.incompletes) [
        | none ↦ buf
        | some (c, n) ↦ record buf { incompletes = c }
      ]

  -- `dropEvent`
  unfoldable pub drop_event : ℕ → Err → EventsBuffer S → EventsBuffer S
  drop_event a err buf = let o = object buf a in update a (record o { err = err_or o.err err }) buf

  abbrev pub call_released : Option (Event → ℕ → Option Err → S → S) → BufferedEvent → S → S
  call_released none o app = app
  call_released (some f) o app = if o.released then app else f o.event o.peer o.err app

  abbrev pub call_check :
      Option (S → Event → List Event → Option ℕ) → S → Event → List Event → Option ℕ
  call_check none app e parents = none
  call_check (some f) app e parents = f app e parents

  abbrev pub get_incomplete_events_list : EventsBuffer S → List ℕ
  get_incomplete_events_list buf = peek_all buf.incompletes (keys buf.incompletes)

  -- The loop over the incomplete events after `hash` was processed.
  unfoldable pub recheck_children :
      (ℕ → EventsBuffer S → Option (EventsBuffer S))
      → ℕ
      → List ℕ
      → EventsBuffer S
      → Option (EventsBuffer S)
  unfolding has_parent
  recheck_children push hash [] buf = some buf
  recheck_children push hash (child ∷ children) buf =
      if has_parent hash (object buf child).event.parents
      then (push child buf >>= λ buf'. recheck_children push hash children buf')
      else recheck_children push hash children buf

  abbrev pub or_else : Option (EventsBuffer S) → Option (EventsBuffer S) → Option (EventsBuffer S)
  or_else none other = other
  or_else (some buf) other = some buf

  module _ (callback : Callback S) where
    -- `releaseEvent`
    unfoldable pub release_event : ℕ → EventsBuffer S → EventsBuffer S
    release_event a buf =
        let o = object buf a in
        update a (record o { released = true })
          (record buf { app = call_released callback.released o buf.app })

    -- The loop of `completeEventParents`; `none` is nil.
    unfoldable pub complete_event_parents : S → List ℕ → Option (List Event)
    complete_event_parents app [] = some []
    complete_event_parents app (p ∷ ps) = elim (callback.get app p) [
      | none ↦ none
      | some parent ↦ (complete_event_parents app ps >>= λ parents. some (parent ∷ parents))
    ]

    -- `processCompleteEvent`
    unfoldable pub process_complete_event : ℕ → List Event → EventsBuffer S → EventsBuffer S × Bool
    unfolding drop_event
    process_complete_event a parents buf =
        let e = (object buf a).event in
        elim (call_check callback.check buf.app e parents) [
          | some err ↦ (drop_event a (app_error err) buf, false)
          | none ↦
              let (app, result) = callback.process e buf.app in
              let buf' = record buf { app = app } in
              elim result [
                | none ↦ (buf', true)
                | some err ↦
                    let o = object buf' a in
                    let failed = update a (record o { err = some (app_error err) }) buf' in
                    (drop_event a (app_error err) failed, false)
              ]
        ]

    -- The branch of `pushEvent` for an event that the application has.
    abbrev pub drop_known : Bool → ℕ → EventsBuffer S → EventsBuffer S
    drop_known recheck a buf =
        let buf' = remove_id (id_of buf a) buf in
        release_event a (if recheck then buf' else drop_event a already_connected_event buf')

    -- The branch of `pushEvent` for an event whose parents are known. `push` checks a child again.
    unfoldable pub connect :
        (List ℕ → ℕ → EventsBuffer S → Option (EventsBuffer S))
        → Option (List ℕ)
        → ℕ
        → List Event
        → EventsBuffer S
        → Option (EventsBuffer S × Bool)
    unfolding process_complete_event peek_all release_event recheck_children
    connect push list a parents buf =
        let id = id_of buf a in
        let (processed, ok) = process_complete_event a parents buf in
        let buf' = release_event a processed in
        let l = list_or list (get_incomplete_events_list buf') in
        if ok
        then (recheck_children (push l) id l buf' >>= λ buf''. some (remove_id id buf'', true))
        else some (remove_id id buf', false)

    -- `pushEvent`, whose recursion is on fuel.
    unfoldable pub push_object :
        ℕ → Option (List ℕ) → Bool → ℕ → EventsBuffer S → Option (EventsBuffer S × Bool)
    unfolding complete_event_parents release_event connect
    push_object zero list recheck a buf = none
    push_object (suc fuel) list recheck a buf =
        if callback.exists buf.app (id_of buf a)
        then some (drop_known recheck a buf, false)
        else elim (complete_event_parents buf.app (object buf a).event.parents) [
          | none ↦ some (if recheck then buf else add_object a buf, false)
          | some parents ↦
              connect (λ l child b. push_object fuel (some l) true child b >>= λ r. some r.0) list a
                parents buf
        ]

    abbrev pub spill : ℕ → EventsBuffer S → EventsBuffer S
    spill a buf = release_event a (drop_event a spilled_event buf)

    -- `RemoveOldest` and the release of what it removed; `none` is an empty cache.
    unfoldable pub spill_oldest : EventsBuffer S → Option (EventsBuffer S)
    unfolding release_event
    spill_oldest buf = elim (get_oldest buf.incompletes) [
      | none ↦ none
      | some (k, a) ↦ some (spill a (record buf { incompletes = remove_oldest buf.incompletes }))
    ]

    -- The walk of the slow path over the keys, the oldest first.
    unfoldable pub spill_first : (Event → Bool) → List ℕ → EventsBuffer S → Option (EventsBuffer S)
    unfolding release_event
    spill_first is_important [] buf = none
    spill_first is_important (k ∷ ks) buf =
        let rest = spill_first is_important ks buf in
        elim (peek k buf.incompletes) [
          | none ↦ rest
          | some a ↦
              if is_important (object buf a).event then rest else some (spill a (remove_id k buf))
        ]

    -- One turn of the loop of `spillIncompletes`; `none` is its `break`.
    unfoldable pub spill_step : EventsBuffer S → Option (EventsBuffer S)
    unfolding spill_oldest spill_first
    spill_step buf = elim callback.is_important [
      | none ↦ spill_oldest buf
      | some is_important ↦
          or_else (spill_first is_important (keys buf.incompletes) buf) (spill_oldest buf)
    ]

    -- The loop of `spillIncompletes` on fuel.
    unfoldable pub spill_loop : ℕ → Metric → EventsBuffer S → Option (EventsBuffer S)
    unfolding spill_step
    spill_loop zero limit buf = none
    spill_loop (suc fuel) limit buf =
        if is_above limit buf.incompletes
        then elim (spill_step buf) [ none ↦ some buf | some buf' ↦ spill_loop fuel limit buf' ]
        else some buf

    -- Every turn removes an entry, so the number of the entries and one more are enough fuel.
    abbrev pub spill_incompletes : Metric → EventsBuffer S → Option (EventsBuffer S)
    spill_incompletes limit buf = spill_loop (suc (length buf.incompletes.entries)) limit buf

    -- `PushEvent`; the answer is whether the event is complete.
    unfoldable pub push_event : ℕ → Event → ℕ → EventsBuffer S → Option (EventsBuffer S × Bool)
    unfolding push_object spill_loop
    push_event fuel de peer buf =
        let a = length buf.objects in
        let buf' = record buf { objects = buf.objects ++ (new_event de peer ∷ []) } in
        elim (peek de.id buf.incompletes) [
          | some b ↦ some (release_event a (drop_event a duplicate_event buf'), false)
          | none ↦
              (push_object fuel none false a buf' >>= λ r.
              spill_incompletes r.0.limit r.0 >>= λ spilled. some (spilled, r.1))
        ]

    -- `IsBuffered`
    abbrev pub is_buffered : ℕ → EventsBuffer S → Bool
    is_buffered id buf = contains id buf.incompletes

    -- `Clear`
    abbrev pub clear : EventsBuffer S → Option (EventsBuffer S)
    clear buf = spill_incompletes (record { num = 0; size = 0 }) buf

    -- `Total`
    abbrev pub total : EventsBuffer S → Metric
    total buf = record {
      num = length buf.incompletes.entries % 2 ^ 32;
      size = buf.incompletes.weight;
    }
