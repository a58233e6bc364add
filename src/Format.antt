-- ===== src/Format.antt =====
-- common/format/user.go: the key under which a node's users stand in every table.
use bxtest.Prelude.{Str, codes, ◌≡◌, ◌++◌, append_cancel}

-- fmt.Sprintf("%s|%s", tag, uuid)
unfoldable pub user_tag : Str → Str → Str
user_tag tag uuid = tag ++ (codes "|" ++ uuid)

-- Within one node two users never share a key.
pub user_tag_injective : (tag u v : Str) → user_tag tag u ≡ user_tag tag v → u ≡ v
unfolding user_tag
user_tag_injective tag u v h =
    append_cancel (codes "|") u v (append_cancel tag (codes "|" ++ u) (codes "|" ++ v) h)
