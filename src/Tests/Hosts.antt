-- ===== src/Tests/Hosts.antt =====
-- The host file system.
use agentfs.Base.{ℕ, ◌+◌, ◌<◌, ◌≤◌, ◌≡◌, refl, arith, none, some}
use agentfs.HostFs.{HostStat, SrcId, src_id, HostFs, new, lookup, forget, done}
use agentfs.HostFs.Counts.{find_again, forget-find_again}
use agentfs.HostFs.Inodes.{Inv, HasNumber, new-Inv}
use agentfs.HostFs.Runs.{HostReach, start, next, by_lookup, HostReach-Inv}
use agentfs.Tests.Setup.{name_a}

abbrev stat_of : ℕ → HostStat
stat_of ino = record {
  st_dev = 1;
  columns = record {
    ino = ino;
    mode = 0o100644;
    nlink = 1;
    uid = 0;
    gid = 0;
    size = 0;
    atime = 0;
    mtime = 0;
    ctime = 0;
    atime_nsec = 0;
    mtime_nsec = 0;
    ctime_nsec = 0;
    rdev = 0;
  };
}

-- The root is inode 100 of the host.
abbrev host : HostFs
host = new 3 (stat_of 100)

number_left : HasNumber host
unfolding new
number_left = omega arith

one_lookup : HostReach (lookup 1 name_a (done 4) (done (stat_of 200)) host).1
one_lookup =
    next (start 3 (stat_of 100)) (by_lookup host 1 name_a (done 4) (done (stat_of 200)) number_left)

HostReach-Inv_example : Inv (lookup 1 name_a (done 4) (done (stat_of 200)) host).1
HostReach-Inv_example = HostReach-Inv one_lookup

unknown : host.src_to_ino (src_id (stat_of 200)) ≡ none
unfolding new
unknown = refl

-- Three lookups, of which one is forgotten.
forget-find_again_example :
    (1 < 3
      → (forget host.next_ino 1 (find_again 3 (λ k. k + 4) (stat_of 200) host)).inodes host.next_ino
        ≡ some (record { fd = 4; src = src_id (stat_of 200); nlookup = 2 }))
    × (3 ≤ 1
        → ((j : ℕ)
            → (forget host.next_ino 1 (find_again 3 (λ k. k + 4) (stat_of 200) host)).inodes j
              ≡ host.inodes j)
          × ((src : SrcId)
              → (forget host.next_ino 1 (find_again 3 (λ k. k + 4) (stat_of 200) host)).src_to_ino
                  src
                ≡ host.src_to_ino src))
forget-find_again_example =
    forget-find_again host (new-Inv 3 (stat_of 100)) (λ k. k + 4) (stat_of 200) unknown 2 1
      (omega arith)
