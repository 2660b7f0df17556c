-- ===== src/Disk/Nodes/Frame.antt =====
-- kernel/vdisk.cxx, node::add_child and node::create: what they change, and what they leave.
use kinnow_os.Prelude.{
  ℕ, ◌≡◌, ◌≢◌, refl, ap, ◌∙◌, true, false, Option, none, some, List, [], ◌∷◌, ◌++◌, arith,
}
use kinnow_os.Prelude.Int.{is_zero}
use kinnow_os.Disk.{Node}
use kinnow_os.Disk.NodeFlags
use kinnow_os.Disk.Perms.{Caller, check_perms}
use kinnow_os.Disk.Nodes.{Disk, fresh_node, put_node, add_child, create_node}

module _ {Device : Type 0} where
  name-add_child :
      (c : Caller) (stray : Option ℕ) (s : Disk Device) (i child k : ℕ)
      → ((add_child c stray s i child).1.node k).name ≡ (s.node k).name
  unfolding add_child
  name-add_child c stray s i child k = ground arith

  driver-add_child :
      (c : Caller) (stray : Option ℕ) (s : Disk Device) (i child k : ℕ)
      → ((add_child c stray s i child).1.node k).driver ≡ (s.node k).driver
  unfolding add_child
  driver-add_child c stray s i child k = ground arith

  added :
      (c : Caller) (s : Disk Device) (i child : ℕ)
      → i ≢ child
      → check_perms c (s.node i) NodeFlags.add_child ≡ true
      → (is_zero (add_child c none s i child).0 ≡ true)
        × (((add_child c none s i child).1.node i).children ≡ (s.node i).children ++ (child ∷ []))
  unfolding add_child
  added c s i child apart granted = (ground (arith, granted), ground (arith, granted))

  refused :
      (c : Caller) (stray : Option ℕ) (s : Disk Device) (i child : ℕ)
      → check_perms c (s.node i) NodeFlags.add_child ≡ false
      → (is_zero (add_child c stray s i child).0 ≡ false)
        × ((k : ℕ) → k ≢ child → (add_child c stray s i child).1.node k ≡ s.node k)
  unfolding add_child
  refused c stray s i child e = (ground (arith, e), λ k apart. ground (arith, e))

  elsewhere :
      (s : Disk Device) (j k : ℕ) (n : Node Device) → k ≢ j → (put_node s j n).node k ≡ s.node k
  elsewhere s j k n apart = ground arith

  put_node_self : (s : Disk Device) (j : ℕ) (n : Node Device) → (put_node s j n).node j ≡ n
  put_node_self s j n = ground arith

  -- `create` below a node that does not let the caller add children returns `nullptr` and changes no node but the storage it took for the new one.
  pub create_node-refused :
      (c : Caller) (stray : Option ℕ) (s : Disk Device) (i j : ℕ) (name : List ℕ)
      → i ≢ j
      → check_perms c (s.node i) NodeFlags.add_child ≡ false
      → (k : ℕ) → k ≢ j
      → ((create_node c (some j) stray s i name).0 ≡ none)
        × ((create_node c (some j) stray s i name).1.node k ≡ s.node k)
  unfolding create_node
  create_node-refused c stray s i j name apart e k h =
      let s1 = put_node s j (fresh_node name) in
      let same_node = elsewhere s j i (fresh_node name) apart in
      let (failed, kept) = refused c stray s1 i j (rw same_node e) in
      (rw failed refl, rw failed (kept k h ∙ elsewhere s j k (fresh_node name) h))

  -- `create` below another node that lets the caller add children returns the new node, which is the
  -- last child from then on; it has the name that was stored, and no driver. All other nodes keep
  -- their names and their drivers.
  pub create_node_lem :
      (c : Caller) (s : Disk Device) (i j : ℕ) (name : List ℕ)
      → i ≢ j
      → check_perms c (s.node i) NodeFlags.add_child ≡ true
      → let r = create_node c (some j) none s i name in
        (r.0 ≡ some j)
        × ((r.1.node i).children ≡ (s.node i).children ++ (j ∷ []))
        × ((r.1.node j).name ≡ (fresh_node {Device = Device} name).name)
        × ((r.1.node j).driver ≡ none)
        × ((k : ℕ)
            → k ≢ j
            → ((r.1.node k).name ≡ (s.node k).name) × ((r.1.node k).driver ≡ (s.node k).driver))
  unfolding create_node
  create_node_lem c s i j name apart granted =
      let fresh = fresh_node name in
      let s1 = put_node s j fresh in
      let at_i = elsewhere s j i fresh apart in
      let (done, last) = added c s1 i j apart (rw at_i granted) in
      let at_j = put_node_self s j fresh in
      (
        rw done refl,
        rw done (last ∙ ap (λ n. n.children ++ (j ∷ [])) at_i),
        rw done (name-add_child c none s1 i j j ∙ ap Node.name at_j),
        rw done (driver-add_child c none s1 i j j ∙ ap Node.driver at_j),
        λ k h.
            let at_k = elsewhere s j k fresh h in
            (
              rw done (name-add_child c none s1 i j k ∙ ap Node.name at_k),
              rw done (driver-add_child c none s1 i j k ∙ ap Node.driver at_k),
            ),
      )
