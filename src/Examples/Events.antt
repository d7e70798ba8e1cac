-- ===== src/Examples/Events.antt =====
-- A table of two descriptors.
use xdrpp.Common.{ℕ, arith, refl, false, none, some, [], ◌∷◌, true}
use xdrpp.Common.Result.{Returns, Returns-ok}
use xdrpp.Pollset.{
  FdState, Pollset, read, write, put_state, fd_cb, remove_cb, find_slot, set_callback, remove_at,
  consolidate,
}
use xdrpp.Pollset.Vector.{set_at}
use xdrpp.Pollset.Table.{IsTable}
use xdrpp.Pollset.Register.{Registers, fd_cb-Registers, Removes, remove_cb-Removes}
use xdrpp.Pollset.Consolidate.{Consolidated}
use xdrpp.Pollset.Poll.{Behavior, PollResult, ready, set_cb, unset_cb, poll}
use xdrpp.Pollset.Poll.Round.{After, poll-IsTable}
use xdrpp.Pollset.Gaps.{no_gaps, consolidate-Consolidated}

abbrev nothing : Pollset
nothing = record { pollfds = []; state = λ s. none }

nothing-IsTable : IsTable nothing
nothing-IsTable = record { polled = λ j p e. absurd (cc); listed = λ s fs e. absurd (cc) }

abbrev reader : FdState
reader = record { rcb = some 1; wcb = none; idx = some 0; roneshot = false; woneshot = false }

-- Descriptor 5 has callback 1 for reading.
abbrev one : Pollset
one = record {
  pollfds = record { fd = 5; pollin = true; pollout = false } ∷ [];
  state = put_state 5 (some reader) nothing.state;
}

one-Registers : Returns (Registers 5 read 1 nothing) (fd_cb 5 read 1 nothing)
one-Registers = fd_cb-Registers 5 read 1 nothing refl nothing-IsTable

one-IsTable : IsTable one
unfolding fd_cb find_slot set_callback set_at
one-IsTable = (Returns-ok one-Registers refl).table

one-Removes : Returns (Removes 5 read one) (remove_cb 5 read one)
one-Removes = remove_cb-Removes 5 read one one-IsTable

-- Descriptor 5 has none left, and descriptor 6 has callback 2 for writing.
abbrev gap : Pollset
gap = record {
  pollfds =
      record { fd = 5; pollin = false; pollout = false }
      ∷ record { fd = 6; pollin = false; pollout = true }
      ∷ [];
  state =
      put_state 6
        (some
          (record { rcb = none; wcb = some 2; idx = some 1; roneshot = false; woneshot = false }))
        (put_state 5 (some (record reader { rcb = none })) one.state);
}

abbrev removed : Pollset
removed = record {
  pollfds = record { fd = 5; pollin = false; pollout = false } ∷ [];
  state = put_state 5 (some (record reader { rcb = none })) one.state;
}

removed-IsTable : IsTable removed
unfolding remove_cb remove_at set_at
removed-IsTable = (Returns-ok one-Removes refl).table

gap-IsTable : IsTable gap
unfolding fd_cb find_slot set_callback set_at
gap-IsTable = (Returns-ok (fd_cb-Registers 6 write 2 removed refl removed-IsTable) refl).table

consolidate-Consolidated_example : Returns (Consolidated no_gaps gap) (consolidate gap)
consolidate-Consolidated_example = consolidate-Consolidated gap gap-IsTable

-- Every callback sets callback 2 on descriptor 6, and removes the one for writing on descriptor 5.
abbrev behave : ℕ → Behavior
behave cb = record { requests = set_cb 6 write 2 ∷ unset_cb 5 write ∷ []; throws = false }

abbrev no_others : Behavior
no_others = record { requests = []; throws = false }

abbrev readable : PollResult
readable =
    ready 1 (record { pollnval = false; pollin = true; pollout = false; hangup = false } ∷ [])

poll-IsTable_example : Returns (After readable) (poll behave no_others readable one)
poll-IsTable_example =
    poll-IsTable behave (λ cb. (refl, tt)) no_others readable one tt one-IsTable
      (omega arith, (refl, tt))
