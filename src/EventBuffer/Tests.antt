-- ===== src/EventBuffer/Tests.antt =====
-- The buffer of events on an application that keeps a list of the processed events.
use lachesis_base.Base.{
  ℕ, ◌≤◌, ◌≡◌, ◌≢◌, refl, arith, Bool, true, false, Option, none, some, List, [], ◌∷◌, Option-cases,
  In, get_or, ◌<◌, ◌⊎◌, if◌then◌else◌, inl, inr, length, All, ◌==◌, find, ◌>>=◌, ℕ_discrete, delete,
}
use lachesis_base.Dag.{Event}
use lachesis_base.Lru.{pos, peek, normalize, insert, exceeds, keys, remove, remove_element}
use lachesis_base.Lru.Weights.{IsCache}
use lachesis_base.EventBuffer.{
  Callback, EventsBuffer, new, new_event, push_event, complete_event_parents, spill_incompletes,
  nowhere, max_int32, peek_all, add_object, spill_loop, drop_event, get_incomplete_events_list,
}
use lachesis_base.EventBuffer.Safety.{IsKept, push_event_lem}
use lachesis_base.EventBuffer.Spill.{IsSpilled, spill_incompletes_lem}
use lachesis_base.EventBuffer.Pushed.{IsBuffer}
use lachesis_base.EventBuffer.Told.{IsTelling, AreTold, Lists}
use lachesis_base.EventBuffer.Leaks.{push_event-IsBuffer}
use lachesis_base.EventBuffer.Rechecks.{IsMemory}
use lachesis_base.EventBuffer.Fuel.{push_event_ends}

abbrev App : Type 0
App = List Event

abbrev get_processed : App → ℕ → Option Event
get_processed [] x = none
get_processed (e ∷ app) x = if e.id == x then some e else get_processed app x

abbrev has : App → ℕ → Bool
has [] x = false
has (e ∷ app) x = if e.id == x then true else has app x

abbrev callback : Callback App
callback = record {
  process = λ e app. (e ∷ app, none);
  released = none;
  get = get_processed;
  exists = has;
  check = none;
  is_important = some (λ e. e.seq == 1);
}

-- Every event follows its parents.
abbrev IsOrdered : App → Type 0
IsOrdered [] = Unit
IsOrdered (e ∷ app) = All (λ p. get_processed app p ≢ none) e.parents × IsOrdered app

parents_known :
    (app : App) (ps : List ℕ) (parents : List Event)
    → complete_event_parents callback app ps ≡ some parents
    → All (λ p. get_processed app p ≢ none) ps
unfolding complete_event_parents
parents_known app [] parents h = tt
parents_known app (p ∷ ps) parents h = elim (Option-cases (get_processed app p)) [
  | inl n ↦ absurd (ground (arith, n, h))
  | inr (e, s) ↦ elim (Option-cases (complete_event_parents callback app ps)) [
    | inl n ↦ absurd (ground (arith, s, n, h))
    | inr (es, m) ↦ (λ n. absurd (ground (arith, s, n)), parents_known app ps es m)
  ]
]

IsOrdered-IsKept : IsKept callback IsOrdered
IsOrdered-IsKept = record {
  released = λ o app h. h;
  processed = λ e parents app h new known checked. (parents_known app e.parents parents known, h);
}

abbrev event : ℕ → ℕ → List ℕ → Event
event id seq parents = record {
  epoch = 1;
  seq = seq;
  frame = 1;
  creator = 1;
  parents = parents;
  lamport = id;
  id = id;
}

abbrev empty : EventsBuffer App
empty = new (record { num = 2; size = 500 }) []

-- Event 3 waits for event 2.
abbrev waiting : EventsBuffer App
waiting = record {
  incompletes = record {
    max_size = pos max_int32;
    weight = 84;
    max_weight = max_int32;
    entries = (3, record { value = 0; weight = 84 }) ∷ [];
    evictions = [];
  };
  objects = new_event (event 3 2 (2 ∷ [])) 7 ∷ [];
  app = [];
  limit = record { num = 2; size = 500 };
}

push_waits : push_event callback 9 (event 3 2 (2 ∷ [])) 7 empty ≡ some (waiting, false)
unfolding push_event peek find add_object normalize insert exceeds
push_waits = refl

-- Event 2 connects, and event 3 after it.
abbrev connected : EventsBuffer App
connected = record {
  incompletes = record {
    max_size = pos max_int32;
    weight = 0;
    max_weight = max_int32;
    entries = [];
    evictions = (3, 0) ∷ [];
  };
  objects =
      record { event = event 3 2 (2 ∷ []); peer = 7; err = none; released = true }
      ∷ record { event = event 2 1 []; peer = 8; err = none; released = true }
      ∷ [];
  app = event 3 2 (2 ∷ []) ∷ event 2 1 [] ∷ [];
  limit = record { num = 2; size = 500 };
}

push_connects_both : push_event callback 9 (event 2 1 []) 8 waiting ≡ some (connected, true)
unfolding push_event peek find ℕ_discrete keys remove remove_element delete
push_connects_both = refl

push_event_lem_example : IsOrdered (event 3 2 (2 ∷ []) ∷ event 2 1 [] ∷ [])
push_event_lem_example =
    push_event_lem callback IsOrdered 9 (event 2 1 []) 8 waiting connected true IsOrdered-IsKept
      push_connects_both tt

-- An application that also notes the released events.
abbrev noting : Callback (App × App)
noting = record {
  process = λ e s. ((e ∷ s.0, s.1), none);
  released = some (λ e peer err s. (s.0, e ∷ s.1));
  get = λ s. get_processed s.0;
  exists = λ s. has s.0;
  check = none;
  is_important = none;
}

abbrev Noted : App × App → Event → Type 0
Noted s e = In e s.1

noting-IsTelling : IsTelling noting Noted
noting-IsTelling = record {
  tell = λ e peer err s. (s.0, e ∷ s.1);
  set = refl;
  tells = λ e peer err s. inl refl;
  stays = λ e peer err s d h. inr h;
  goes_on = λ e s d h. h;
}

abbrev empty_noting : EventsBuffer (App × App)
empty_noting = new (record { num = 2; size = 500 }) ([], [])

abbrev waiting_noting : EventsBuffer (App × App)
waiting_noting = record {
  incompletes = waiting.incompletes;
  objects = waiting.objects;
  app = ([], []);
  limit = waiting.limit;
}

push_waits_noting :
    push_event noting 9 (event 3 2 (2 ∷ [])) 7 empty_noting ≡ some (waiting_noting, false)
unfolding push_event peek find add_object normalize insert exceeds
push_waits_noting = refl

abbrev connected_noting : EventsBuffer (App × App)
connected_noting = record {
  incompletes = connected.incompletes;
  objects = connected.objects;
  app = (connected.app, connected.app);
  limit = connected.limit;
}

push_connects_noting :
    push_event noting 9 (event 2 1 []) 8 waiting_noting ≡ some (connected_noting, true)
unfolding push_event peek find ℕ_discrete keys remove remove_element delete
push_connects_noting = refl

empty_noting-IsBuffer : IsBuffer empty_noting
unfolding peek find
empty_noting-IsBuffer = record {
  cache = record { keyed = tt; weighed = refl; fits = omega arith };
  named = λ k a p. absurd (ground (arith, p));
  held = λ x l u. absurd (omega (arith, l));
}

waiting_noting-IsBuffer : IsBuffer waiting_noting × AreTold noting Noted waiting_noting
waiting_noting-IsBuffer =
    let (h, t, _, _) =
      push_event-IsBuffer noting Noted 9 (event 3 2 (2 ∷ [])) 7 empty_noting waiting_noting false
        noting-IsTelling empty_noting-IsBuffer (λ x u. absurd (ground (arith, u)))
        (record { max_size = refl; max_weight = refl; light = omega arith; short = omega arith })
        push_waits_noting in
    (h, t)

push_event-IsBuffer_example :
    IsBuffer connected_noting
    × AreTold noting Noted connected_noting
    × Lists noting
        (new_event (event 3 2 (2 ∷ [])) 7 ∷ new_event (event 2 1 []) 8 ∷ [])
        connected_noting
    × ((x : ℕ)
        → x < 2
        → Noted connected_noting.app
            (get_or
              (new_event (event 3 2 (2 ∷ [])) 7 ∷ new_event (event 2 1 []) 8 ∷ [])
              x
              nowhere).event
          ⊎ (peek
                (get_or
                  (new_event (event 3 2 (2 ∷ [])) 7 ∷ new_event (event 2 1 []) 8 ∷ [])
                  x
                  nowhere).event.id
                connected_noting.incompletes
              ≡ some x))
push_event-IsBuffer_example =
    push_event-IsBuffer noting Noted 9 (event 2 1 []) 8 waiting_noting connected_noting true
      noting-IsTelling (waiting_noting-IsBuffer.0) (waiting_noting-IsBuffer.1)
      (record { max_size = refl; max_weight = refl; light = omega arith; short = omega arith })
      push_connects_noting

app-IsMemory : IsMemory callback
app-IsMemory = record {
  told = λ o app x h. h;
  goes_on = λ e app x h. ground (arith, h);
  learns = λ e app h. ground arith;
}

push_event_ends_example :
    (b' : EventsBuffer App) × (complete : Bool) × (push_event callback 9 (event 2 1 []) 8 waiting
      ≡ some (b', complete))
unfolding peek_all keys peek find ℕ_discrete
push_event_ends_example =
    push_event_ends callback app-IsMemory 9 (event 2 1 []) 8 waiting (omega arith)

-- An event with the number 2 goes before an older one with the number 1, which is important.
abbrev two_waiting : EventsBuffer App
two_waiting = record {
  incompletes = record {
    max_size = pos max_int32;
    weight = 168;
    max_weight = max_int32;
    entries = (5, record { value = 1; weight = 84 }) ∷ (3, record { value = 0; weight = 84 }) ∷ [];
    evictions = [];
  };
  objects = new_event (event 3 1 (2 ∷ [])) 7 ∷ new_event (event 5 2 (4 ∷ [])) 7 ∷ [];
  app = [];
  limit = record { num = 2; size = 500 };
}

spill_runs :
    (spill_incompletes callback (record { num = 1; size = 500 }) two_waiting >>= λ b.
    some (get_incomplete_events_list b))
    ≡ some (0 ∷ [])
unfolding spill_loop peek find ℕ_discrete keys remove remove_element delete peek_all drop_event
spill_runs = refl

spill_incompletes_lem_example :
    (b' : EventsBuffer App) × (spill_incompletes callback
        (record { num = 1; size = 500 })
        two_waiting
      ≡ some b')
    × (length b'.incompletes.entries ≤ 1)
    × (b'.incompletes.weight ≤ 500)
    × IsCache b'.incompletes
    × IsSpilled callback two_waiting b'
unfolding find ℕ_discrete
spill_incompletes_lem_example =
    spill_incompletes_lem callback (record { num = 1; size = 500 }) two_waiting
      (record { keyed = (refl, (refl, tt)); weighed = refl; fits = omega arith }) (omega arith)
