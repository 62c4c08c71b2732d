-- ===== src/Core/Roles.antt =====
-- role.go
use gouncer.Base.{Bool, not, ◌&&◌, List, [], ◌==◌, contains, GoString, string_eq}

-- `Roles`
abbrev pub Roles : Type 0
Roles = List GoString

-- `Roles.Holds`: the role is one of the set, and is not the empty one.
unfoldable pub holds : Roles → GoString → Bool
holds roles role = not (role == []) && contains roles role
