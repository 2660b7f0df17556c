-- ===== src/Disk/Tests.antt =====
-- Instances of the theorems about nodes, handles and paths at concrete inputs: a device is the list
-- of the bytes that were written to it.
use kinnow_os.Prelude.{
  ℕ, zero, suc, ◌+◌, ◌==◌, ◌^◌, ◌≡◌, ◌≢◌, ◌⊎◌, refl, subst, false, none, some, List, [], ◌∷◌, ◌++◌,
  arith, length, get_elem?, if◌then◌else◌,
}
use kinnow_os.Prelude.Int.{ℤ, pos, eqb_ℤ, ◌+ℤ◌}
use kinnow_os.Disk.{Driver, Node}
use kinnow_os.Disk.Perms.{Caller, check_perms, check_perms_lem, bit}
use kinnow_os.Disk.Handle.{Handle, write, flush, driver_of}
use kinnow_os.Disk.Handle.Guard.{perform, perform-denied, write_request, flush_request}
use kinnow_os.Disk.Handle.Buffer.{Collects, bytes, write_lem, flush-loses}
use kinnow_os.Disk.Nodes.{Disk, create_node, text_of}
use kinnow_os.Disk.Path.{
  requests_node, is_named, found, out_of_fuel, resolve_path, resolve_path_relative, find_file,
}
use kinnow_os.Disk.Path.Terminates.{resolve_path-ends}
use kinnow_os.Disk.Path.Reaches.{Reaches, find_file-Reaches}
use kinnow_os.Disk.Path.Created.{Unanswered, resolve_path_relative-create_node}

abbrev printer : Driver (List ℕ)
printer = record {
  open_handle = none;
  close_handle = none;
  write = some (λ dev buf. (pos (length buf), dev ++ buf));
  read = none;
  ioctl = none;
  write_disk = none;
  read_disk = none;
  add_node = none;
  remove_node = none;
  request_node = false;
}

abbrev file : Node (List ℕ)
file = record {
  children = [];
  driver = some printer;
  owner_id = pos 1;
  user_flags = 0x83;
  group_flags = 0;
  sys_flags = 2;
  name = b'A' ∷ b'B' ∷ 0 ∷ [];
}

abbrev directory : Node (List ℕ)
directory = record file { children = 1 ∷ []; driver = none }

abbrev owner : Caller
owner = record { user_id = pos 1; flags = 0 }

abbrev stranger : Caller
stranger = record { user_id = pos 2; flags = 1 }

abbrev empty_handle : Handle (List ℕ)
empty_handle = record { node = some file; write_buf = none; write_buf_size = 0; flags = 4 }

abbrev full_handle : Handle (List ℕ)
full_handle = record empty_handle { write_buf = some (λ i. b'x' + i); write_buf_size = 2 }

abbrev small_disk : Disk (List ℕ)
small_disk = record { node = λ k. if k == 0 then directory else file; device = [] }

check_perms_lem_example :
    check_perms stranger file (2 ^ 1)
    ≡ bit (if eqb_ℤ stranger.user_id file.owner_id then file.user_flags else file.sys_flags) 1
check_perms_lem_example = check_perms_lem stranger file 1 (omega arith) (omega arith) (omega arith)

perform-denied_example :
    (perform (write_request (b'x' ∷ [])) stranger none full_handle [] ≡ some [])
    ⊎ ((write_request (b'x' ∷ []) ≡ flush_request) × (driver_of full_handle ≡ none))
unfolding check_perms
perform-denied_example =
    perform-denied (write_request (b'x' ∷ [])) stranger none full_handle [] refl

write_lem_example :
    let (r, h', dev') = write owner (some (λ i. b'x' + i)) full_handle [] (b'q' ∷ []) in
    (r ≡ pos 1) × Collects h' ((b'x' ∷ b'y' ∷ []) ++ (b'q' ∷ [])) × (dev' ≡ [])
unfolding check_perms
write_lem_example =
    write_lem owner (λ i. b'x' + i) full_handle [] (b'x' ∷ b'y' ∷ []) (b'q' ∷ [])
      (λ dev buf. (pos (length buf), dev ++ buf)) (bytes (λ i. b'x' + i) refl refl) (λ k lt. refl)
      (omega arith) refl refl refl

flush-loses_example :
    (r : ℤ) × (h' : Handle (List ℕ)) × (flush owner none full_handle [] ≡ some (r, h', []))
    × Collects h' []
flush-loses_example =
    flush-loses owner none full_handle [] (b'x' ∷ b'y' ∷ [])
      (λ dev buf. (pos (length buf), dev ++ buf)) refl refl (bytes (λ i. b'x' + i) refl refl)
      (omega arith)

resolve_path-ends_example : resolve_path 4 small_disk (b'/' ∷ b'A' ∷ b'B' ∷ []) ≢ out_of_fuel
resolve_path-ends_example = resolve_path-ends 4 small_disk (b'/' ∷ b'A' ∷ b'B' ∷ []) (omega arith)

-- The name of the child is AB; the path asks for BA.
find_file-Reaches_example : Reaches small_disk 0 (b'B' ∷ b'A' ∷ []) 1
unfolding find_file ◌+ℤ◌
find_file-Reaches_example = find_file-Reaches 2 small_disk 0 (b'B' ∷ b'A' ∷ []) 1 refl

new_is_new : (place : ℕ) → get_elem? (small_disk.node 0).children place ≢ some 2
new_is_new zero = λ e. cc
new_is_new (suc place) = λ e. cc

nobody_answers : Unanswered small_disk (b'N' ∷ []) (small_disk.node 0).children
unfolding Unanswered requests_node is_named text_of
nobody_answers zero k e =
    let at : 1 ≡ k = cc in
    subst
      (λ j.
        (requests_node (small_disk.node j) ≡ false)
        × (is_named (b'N' ∷ []) (text_of (small_disk.node j).name) ≡ false))
      at (refl, refl)
nobody_answers (suc place) k e = absurd cc

resolve_path_relative-create_node_example :
    resolve_path_relative 2
      (create_node owner (some 2) none small_disk 0 (b'N' ∷ [])).1
      0
      (b'/' ∷ b'N' ∷ [])
    ≡ found 2
unfolding check_perms
resolve_path_relative-create_node_example =
    resolve_path_relative-create_node 0 owner small_disk 0 2 (b'N' ∷ []) (ground arith) refl refl
      (omega arith) (omega arith) new_is_new nobody_answers
