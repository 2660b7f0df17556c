-- ===== src/Disk/Path/Created.antt =====
-- kernel/vdisk.cxx, node::create and resolve_path_relative together: where a new node is found.
use kinnow_os.Prelude.{
  ℕ, suc, ◌<◌, ◌≤◌, ◌≡◌, ◌≢◌, refl, ap, ◌∙◌, Bool, true, false, not, ◌&&◌, Option, none, some, List,
  [], ◌∷◌, ◌++◌, arith, ◌==◌, length, get_elem?, ltb,
}
use kinnow_os.Disk.{Node, Driver}
use kinnow_os.Disk.NodeFlags
use kinnow_os.Disk.Perms.{Caller, check_perms}
use kinnow_os.Disk.Nodes.{Disk, text_of, stored_name, name_size, fresh_node, create_node}
use kinnow_os.Disk.Nodes.Frame.{create_node_lem}
use kinnow_os.Disk.Nodes.Names.{take_all}
use kinnow_os.Disk.Path.{
  found, same, is_separator, is_named, requests_node, segment, behind, match_child, find_file,
  resolve_path_relative,
}
use kinnow_os.Disk.Path.Reaches.{is_named_iff}

-- A name of characters that are neither zero nor a separator.
abbrev pub is_plain : List ℕ → Bool
is_plain [] = true
is_plain (c ∷ cs) = not (c == 0) && (not (is_separator c) && is_plain cs)

text_of-plain : (name : List ℕ) → is_plain name ≡ true → text_of (name ++ (0 ∷ [])) ≡ name
unfolding text_of
text_of-plain [] h = refl
text_of-plain (c ∷ cs) h = ground (arith, h, text_of-plain cs)

segment-plain : (name : List ℕ) → is_plain name ≡ true → segment name ≡ name
unfolding segment
segment-plain [] h = refl
segment-plain (c ∷ cs) h = ground (arith, h, segment-plain cs)

behind-plain : (name : List ℕ) → is_plain name ≡ true → behind name ≡ []
unfolding behind
behind-plain [] h = refl
behind-plain (c ∷ cs) h = ground (arith, h, behind-plain cs)

text_of-stored_name :
    (name : List ℕ)
    → is_plain name ≡ true
    → length name ≤ name_size
    → text_of (stored_name name) ≡ name
unfolding stored_name
text_of-stored_name name h short =
    let fits : ltb name_size (length name) ≡ false = ground arith in
    rw (stored_name, fits, take_all name) (text_of-plain name h)

is_named_self : (name : List ℕ) → is_named name name ≡ true
is_named_self name = (is_named_iff name name).1 (refl, refl)

module _ {Device : Type 0} where
  -- None of the nodes answers to the segment: no name fits, and no driver takes requests.
  unfoldable pub Unanswered : Disk Device → List ℕ → List ℕ → Type 0
  Unanswered s seg children =
      (place k : ℕ)
      → get_elem? children place ≡ some k
      → (requests_node (s.node k) ≡ false) × (is_named seg (text_of (s.node k).name) ≡ false)

  match_child-last :
      (s : Disk Device) (seg children : List ℕ) (j : ℕ)
      → Unanswered s seg children
      → requests_node (s.node j) ≡ false
      → is_named seg (text_of (s.node j).name) ≡ true
      → match_child s seg (children ++ (j ∷ [])) ≡ same j
  unfolding match_child Unanswered
  match_child-last s seg [] j free quiet named = ground (arith, quiet, named)
  match_child-last s seg (k ∷ ks) j free quiet named =
      let (quiet_k, apart) = free 0 k refl in
      let rest = match_child-last s seg ks j (λ place. free (suc place)) quiet named in
      ground (arith, quiet_k, apart, rest)

  requests_node_cong : (m n : Node Device) → m.driver ≡ n.driver → requests_node m ≡ requests_node n
  unfolding requests_node
  requests_node_cong m n e =
      ap
        (λ (d : Option (Driver Device)). elim d as (λ x. Bool) [
          | none ↦ false
          | some x ↦ x.request_node
        ])
        e

  requests_node-none : (n : Node Device) → n.driver ≡ none → requests_node n ≡ false
  unfolding requests_node
  requests_node-none n e =
      ap
        (λ (d : Option (Driver Device)). elim d as (λ x. Bool) [
          | none ↦ false
          | some x ↦ x.request_node
        ])
        e

  find_file-last :
      (fuel : ℕ) (s : Disk Device) (i j : ℕ) (name : List ℕ)
      → is_plain name ≡ true
      → 0 < length name
      → match_child s name (s.node i).children ≡ same j
      → find_file (suc (suc fuel)) s i name ≡ found j
  unfolding find_file
  find_file-last fuel s i j [] plain long m = absurd (omega arith)
  find_file-last fuel s i j (c ∷ cs) plain long m =
      let children = (s.node i).children in
      let fits : match_child s (segment (c ∷ cs)) children ≡ same j =
        ap (λ seg. match_child s seg children) (segment-plain (c ∷ cs) plain) ∙ m in
      let step : find_file (suc (suc fuel)) s i (c ∷ cs)
          ≡ find_file (suc fuel) s j (behind (c ∷ cs)) =
        rw (find_file, fits) refl in
      step ∙ ap (find_file (suc fuel) s j) (behind-plain (c ∷ cs) plain)

  -- A node that `create` makes below another is found at its name behind a separator, from its
  -- parent, if the name has 1 to 24 characters that are no separators and no child from before
  -- answers to it.
  pub resolve_path_relative-create_node :
      (fuel : ℕ) (c : Caller) (s : Disk Device) (i j : ℕ) (name : List ℕ)
      → i ≢ j
      → check_perms c (s.node i) NodeFlags.add_child ≡ true
      → is_plain name ≡ true
      → 0 < length name
      → length name ≤ name_size
      → ((place : ℕ) → get_elem? (s.node i).children place ≢ some j)
      → Unanswered s name (s.node i).children
      → resolve_path_relative
          (suc (suc fuel))
          (create_node c (some j) none s i name).1
          i
          (b'/' ∷ name)
        ≡ found j
  unfolding resolve_path_relative Unanswered fresh_node
  resolve_path_relative-create_node fuel c s i j name apart granted plain long short fresh free =
      let s' = (create_node c (some j) none s i name).1 in
      let (done, last, named, driverless, kept) = create_node_lem c s i j name apart granted in
      let still : Unanswered s' name (s.node i).children = λ place k at.
        let (quiet, unlike) = free place k at in
        let other : k ≢ j = λ e. fresh place (at ∙ ap some e) in
        let (same_name, same_driver) = kept k other in
        (
          requests_node_cong (s'.node k) (s.node k) same_driver ∙ quiet,
          ap (λ n. is_named name (text_of n)) same_name ∙ unlike,
        ) in
      let quiet_j : requests_node (s'.node j) ≡ false = requests_node-none (s'.node j) driverless in
      let named_j : is_named name (text_of (s'.node j).name) ≡ true =
        ap (λ n. is_named name (text_of n)) named
        ∙ (ap (is_named name) (text_of-stored_name name plain short) ∙ is_named_self name) in
      let m : match_child s' name (s'.node i).children ≡ same j =
        ap (match_child s' name) last
        ∙ match_child-last s' name (s.node i).children j still quiet_j named_j in
      find_file-last fuel s' i j name plain long m
