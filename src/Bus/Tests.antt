-- ===== src/Bus/Tests.antt =====
-- A bus with two chips, which count the accesses that they see.
use workbench.Common.{ℕ, ◌+◌, ◌≡◌, false, none, some, [], ◌∷◌}
use workbench.Bus.{ChipOps, bus_init, bus_read, bus_write}
use workbench.Bus.Order.{IsRead, IsWritten, or_else, or_claim, bus_access-order}

-- A chip that claims nothing, and one that answers every read.
abbrev deaf : ChipOps ℕ
deaf = record {
  tick = none;
  read = some (λ addr s. (none, (s.0 + 1, s.1)));
  write = some (λ addr v s. (false, (s.0 + 1, s.1)));
  reset = none;
}

abbrev eager : ChipOps ℕ
eager = record {
  tick = none;
  read = some (λ addr s. (some addr, (s.0 + 10, s.1)));
  write = none;
  reset = none;
}

bus_access-order_example :
    IsRead 7 (deaf ∷ eager ∷ []) (0, bus_init) (bus_read (deaf ∷ eager ∷ []) 7 (0, bus_init))
    × IsWritten 7 1
        (deaf ∷ eager ∷ [])
        (0, bus_init)
        (bus_write (deaf ∷ eager ∷ []) 7 1 (0, bus_init))
    × (bus_read (deaf ∷ eager ∷ eager ∷ []) 7 (0, bus_init)
        ≡ or_else (bus_read (deaf ∷ eager ∷ []) 7 (0, bus_init)) (bus_read (eager ∷ []) 7))
    × (bus_write (deaf ∷ eager ∷ eager ∷ []) 7 1 (0, bus_init)
        ≡ or_claim (bus_write (deaf ∷ eager ∷ []) 7 1 (0, bus_init)) (bus_write (eager ∷ []) 7 1))
bus_access-order_example = bus_access-order (deaf ∷ eager ∷ []) (eager ∷ []) 7 1 (0, bus_init)
