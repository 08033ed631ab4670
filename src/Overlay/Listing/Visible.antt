-- ===== src/Overlay/Listing/Visible.antt =====
-- The names that `readdir` of the overlay gives: those of both layers that no whiteout covers.
use agentfs.Base.{List, [], Str, if◌then◌else◌}
use agentfs.Db.{Db}
use agentfs.Fs.Listing.{names, order_by_name, in_directory}
use agentfs.Overlay.{in_delta, InodeInfo, same_layer}

-- What the delta lists.
upper_names : InodeInfo → Db → List Str
upper_names info db =
    if same_layer info.layer in_delta
    then names (order_by_name (in_directory info.underlying_ino db.dentry))
    else []
