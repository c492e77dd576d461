-- ===== src/Topology/Disks.antt =====
-- Of several disks, one is reported.
use scaphandre.Base.{ℕ, ◌≡◌, refl, ap, ◌∙◌, List, [], ◌∷◌, ◌++◌}
use scaphandre.Topology.System.{Disk, insert_metric, insert_disk, insert_disks, get_disks}

-- What a disk leaves in the map does not depend on the disks of before.
insert_disk_again :
    (timestamp : ℕ) (d e : Disk)
    → insert_disk timestamp d (insert_disk timestamp e []) ≡ insert_disk timestamp d []
unfolding insert_disk insert_metric
insert_disk_again timestamp d e = refl

insert_disks-last :
    (timestamp : ℕ) (ds : List Disk) (d e : Disk)
    → insert_disks timestamp (ds ++ d ∷ []) (insert_disk timestamp e [])
      ≡ insert_disk timestamp d []
unfolding insert_disks
insert_disks-last timestamp [] d e = insert_disk_again timestamp d e
insert_disks-last timestamp (x ∷ xs) d e =
    ap (insert_disks timestamp (xs ++ d ∷ [])) (insert_disk_again timestamp x e)
    ∙ insert_disks-last timestamp xs d x

-- However many disks a host has, the last one that sysinfo lists is the only one that is reported: the
-- map is the one that it gives alone.
pub get_disks-last :
    (timestamp : ℕ) (ds : List Disk) (d : Disk)
    → get_disks timestamp (ds ++ d ∷ []) ≡ get_disks timestamp (d ∷ [])
unfolding get_disks insert_disks
get_disks-last timestamp [] d = refl
get_disks-last timestamp (x ∷ xs) d = insert_disks-last timestamp xs d x
