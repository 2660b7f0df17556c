-- ===== src/User/Tests.antt =====
-- Instances of the theorems about users at concrete inputs.
use kinnow_os.Prelude.{◌≡◌, refl, some, [], ◌∷◌, get_or}
use kinnow_os.Storage.Memory
use kinnow_os.Storage.Memory.{Memory}
use kinnow_os.Storage.Text
use kinnow_os.User.{User}

-- "AB" at 0, "AC" at 3.
abbrev names : Memory
names a = get_or (65 ∷ 66 ∷ 0 ∷ 65 ∷ 67 ∷ 0 ∷ []) a 0

abbrev admin : User
admin = record { name = 0; flags = 1 }

abbrev after : Memory
after = Memory.write (Memory.write (Memory.write names 64 65) 65 67) 66 0

copied : Text.copy 5 names 64 3 ≡ some (after, 67)
unfolding Text.copy Memory.write
copied = refl
