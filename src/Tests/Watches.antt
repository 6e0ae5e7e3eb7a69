-- ===== src/Tests/Watches.antt =====
-- Watches of documents: a bump that is read, a store that is closed, and a reader that is behind.
use cali_go_stack.Base.{
  ◌≡◌, ◌≢◌, ◌+◌, refl, false, none, some, List, [], ◌∷◌, ◌++◌, lookup, insert, arith,
}
use cali_go_stack.Store.Crdt.Watch.{
  State, Step, watches, bumps, reads, cancels, closes, running, version, watch, go, read, run,
  new_store,
}
use cali_go_stack.Store.Crdt.Watch.Fan.{sent}
use cali_go_stack.Store.Crdt.Watch.Panics.{
  is_ended, stepped, ran, run-ran, run-IsValid, new_store-IsValid, never_panics,
}
use cali_go_stack.Store.Crdt.Watch.Current.{attentive, last?}
use cali_go_stack.Store.Crdt.Watch.Latest.{latest_lands}
use cali_go_stack.Store.Crdt.Watch.Closing.{moves, close_strands}
use cali_go_stack.Store.Crdt.Watch.Full.{bumps_taken, full_drops_newest}

never_panics_example :
    run (watches "ann" ∷ cancels 0 ∷ cancels 0 ∷ bumps "ann" ∷ closes ∷ cancels 0 ∷ []) new_store
    ≢ none
never_panics_example =
    never_panics (watches "ann" ∷ cancels 0 ∷ cancels 0 ∷ bumps "ann" ∷ closes ∷ cancels 0 ∷ [])

-- What a history leaves.
abbrev after_all : List Step → State
after_all xs = ran xs new_store

abbrev earlier : List Step
earlier = watches "bob" ∷ bumps "ann" ∷ []

abbrev later : List Step
later = moves 2 1 ++ bumps "ann" ∷ bumps "bob" ∷ moves 3 1 ++ reads 1 ∷ []

abbrev stop : State
stop = ran (watches "ann" ∷ later) (after_all earlier)

latest_lands_example : last? ((stop.subs 1).seen ++ (stop.subs 1).out) ≡ some (version "ann" stop)
unfolding attentive ran stepped watch go read sent insert lookup
latest_lands_example =
    latest_lands earlier later "ann" (after_all earlier) stop
      (run-ran earlier new_store new_store-IsValid) refl
      (run-ran (watches "ann" ∷ later) (after_all earlier)
        (run-IsValid earlier (after_all earlier) (run-ran earlier new_store new_store-IsValid)))
      refl refl

abbrev once : List Step
once = watches "ann" ∷ bumps "ann" ∷ []

abbrev closing : List Step
closing = cancels 0 ∷ moves 4 0

abbrev closed_store : State
closed_store = ran (closes ∷ closing) (after_all once)

close_strands_example :
    ((closed_store.subs 0).closed ≡ false) × (is_ended (closed_store.subs 0).phase ≡ false)
unfolding ran stepped watch
close_strands_example =
    close_strands once closing 0 (after_all once) closed_store
      (run-ran once new_store new_store-IsValid) refl
      (run-ran (closes ∷ closing) (after_all once)
        (run-IsValid once (after_all once) (run-ran once new_store new_store-IsValid)))

abbrev unread : List Step
unread = watches "ann" ∷ moves 2 0 ++ bumps_taken 7 "ann" 0

abbrev behind : State
behind = ran (bumps_taken 2 "ann" 0) (after_all unread)

full_drops_newest_example :
    (version "ann" behind ≡ version "ann" (after_all unread) + 2)
    × ((behind.subs 0).pending ≡ [])
    × ((behind.subs 0).phase ≡ running)
    × ((behind.subs 0).out ≡ ((after_all unread).subs 0).out)
unfolding ran stepped watch go sent insert lookup
full_drops_newest_example =
    full_drops_newest unread 2 0 "ann" (after_all unread) behind
      (run-ran unread new_store new_store-IsValid) refl refl refl refl refl (omega arith)
      (run-ran (bumps_taken 2 "ann" 0) (after_all unread)
        (run-IsValid unread (after_all unread) (run-ran unread new_store new_store-IsValid)))
