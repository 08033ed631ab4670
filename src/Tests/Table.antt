-- ===== src/Tests/Table.antt =====
-- Descriptors.
use agentfs.Base.{ℕ, ◌≡◌, refl, arith, none, some, if◌then◌else◌, ◌==◌}
use agentfs.FdTable.{
  FdEntry, FdTable, passthrough, new, allocate, allocate_min, allocate_at, deallocate, get,
  first_user_fd,
}
use agentfs.FdTable.Place.{allocate_at-IsTable, allocate_min-IsLowest}
use agentfs.FdTable.Table.{IsTable, IsLowest, new-IsTable, allocate-IsLowest}

abbrev Ops : Type 0
Ops = Unit {0}

abbrev entry : FdEntry Ops
entry = passthrough 9 0 none

abbrev table : FdTable Ops
table = new

table_next : table.next_vfd ≡ 3
unfolding new
table_next = refl

program : Unit {0}
unfolding new allocate deallocate
program = tt

-- A freed descriptor is used again.
reuse_run : (deallocate 1 table).0 ≡ some (passthrough 1 0 none)
unfolding program
reuse_run = refl

allocate-IsLowest_example :
    (fd : ℕ) × (t' : FdTable Ops) × (allocate entry table ≡ some (fd, t'))
    × IsLowest first_user_fd fd table
    × IsTable t'
    × ((k : ℕ) → get k t' ≡ (if k == fd then some entry else get k table))
allocate-IsLowest_example = allocate-IsLowest entry table new-IsTable (omega (arith, table_next))

allocate_at-IsTable_example :
    (t' : FdTable Ops) × (allocate_at 7 entry table ≡ some (get 7 table, t'))
    × IsTable t'
    × ((k : ℕ) → get k t' ≡ (if k == 7 then some entry else get k table))
allocate_at-IsTable_example = allocate_at-IsTable entry 7 table new-IsTable (omega arith)

allocate_min-IsLowest_example :
    (fd : ℕ) × (t' : FdTable Ops) × (allocate_min 10 entry table ≡ some (fd, t'))
    × IsLowest 10 fd table
    × IsTable t'
    × ((k : ℕ) → get k t' ≡ (if k == fd then some entry else get k table))
allocate_min-IsLowest_example =
    allocate_min-IsLowest entry 10 table new-IsTable (omega arith) (omega (arith, table_next))
