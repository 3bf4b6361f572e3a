-- ===== src/Factory/Row.antt =====
-- internal/factory/materialize.go, attrmap.go and digest.go: the expansion of one proc.
use golang_ap.Prelude.{
  ℕ, ◌/◌, ◌%◌, ℤ, pos, Bool, ◌||◌, Option, none, some, List, [], ◌∷◌, length, if◌then◌else◌,
}
use golang_ap.Text.{Str, str, str_eq, to_lower, equal_fold, itoa}
use golang_ap.Queue.State.{World}
use golang_ap.Queue.Commit.{insert_string}
use golang_ap.Factory.Strings.{
  split_row, has_prefix_fold, starts_with, drop_bytes, trim_my_prefix, trim_plus, is_quoted,
  unquote,
}

-- config.Config: Set, and Get with its expansion, the empty string for a name that is not set.
pub record Macros : Type 1 where
  pub Config : Type 0
  pub set : Config → Str → Str → Config
  pub get : Config → Str → Str

-- assign
pub record Assign : Type 0 where
  pub key : Str
  pub value : Str
  pub expr : Bool

pub data AttrKind : Type 0 where
  kind_string kind_expr kind_args kind_env : AttrKind

-- attrMap, in its order
unfoldable pub attr_map : List (Str × Str × AttrKind)
attr_map =
    (str "executable", str "Cmd", kind_string)
    ∷ (str "arguments", str "", kind_args)
    ∷ (str "environment", str "", kind_env)
    ∷ (str "output", str "Out", kind_string)
    ∷ (str "error", str "Err", kind_string)
    ∷ (str "input", str "In", kind_string)
    ∷ (str "log", str "UserLog", kind_string)
    ∷ (str "initialdir", str "Iwd", kind_string)
    ∷ (str "initial_dir", str "Iwd", kind_string)
    ∷ (str "iwd", str "Iwd", kind_string)
    ∷ (str "transfer_input_files", str "TransferInput", kind_string)
    ∷ (str "transfer_output_files", str "TransferOutput", kind_string)
    ∷ (str "transfer_output_remaps", str "TransferOutputRemaps", kind_string)
    ∷ (str "request_cpus", str "RequestCpus", kind_expr)
    ∷ (str "request_memory", str "RequestMemory", kind_expr)
    ∷ (str "request_disk", str "RequestDisk", kind_expr)
    ∷ (str "request_gpus", str "RequestGpus", kind_expr)
    ∷ (str "priority", str "JobPrio", kind_expr)
    ∷ (str "job_lease_duration", str "JobLeaseDuration", kind_expr)
    ∷ (str "batch_name", str "JobBatchName", kind_string)
    ∷ []

unfoldable pub find_spec : Str → List (Str × Str × AttrKind) → Option (Str × AttrKind)
find_spec key [] = none
find_spec key ((k, attr, kind) ∷ specs) =
    if str_eq k key then some (attr, kind) else find_spec key specs

module _ (macros : Macros) where
  open macros use {Config, set, get}

  -- Digest; queueNum is at least 1.
  pub record Digest : Type 0 where
    pub assigns : List Assign
    pub queue_num : ℕ
    pub var_names : List Str
    pub cfg : Config

  unfoldable pub row_index : Digest → ℕ → ℕ
  row_index d proc = proc / d.queue_num

  unfoldable pub step_of : Digest → ℕ → ℕ
  step_of d proc = proc % d.queue_num

  unfoldable pub set_var : Str → Str → Config → Config
  set_var name value cfg =
      let cfg1 = set cfg name value in
      if str_eq (to_lower name) name then cfg1 else set cfg1 (to_lower name) value

  unfoldable pub set_fields : List Str → List Str → Config → Config
  unfolding set_var
  set_fields [] fields cfg = cfg
  set_fields (name ∷ names) [] cfg = set_fields names [] (set_var name (str "") cfg)
  set_fields (name ∷ names) (v ∷ fields) cfg = set_fields names fields (set_var name v cfg)

  unfoldable pub set_item : Digest → Str → Config → Config
  unfolding set_var set_fields split_row
  set_item d raw cfg = elim d.var_names [
    | [] ↦ set_var (str "Item") raw cfg
    | name ∷ names ↦
        set_fields d.var_names (split_row raw (length d.var_names))
          (set_var (str "Item") (str "") cfg)
  ]

  -- The live variables of a proc.
  unfoldable pub live_vars : Digest → ℤ → ℕ → Str → Config
  unfolding set_var set_item row_index step_of
  live_vars d cluster proc raw =
      let cfg1 = set_var (str "Cluster") (itoa cluster) d.cfg in
      let cfg2 = set_var (str "ClusterId") (itoa cluster) cfg1 in
      let cfg3 = set_var (str "Process") (itoa (pos proc)) cfg2 in
      let cfg4 = set_var (str "ProcId") (itoa (pos proc)) cfg3 in
      let cfg5 = set_var (str "Node") (itoa (pos proc)) cfg4 in
      let cfg6 = set_var (str "Step") (itoa (pos (step_of d proc))) cfg5 in
      let cfg7 = set_var (str "Row") (itoa (pos (row_index d proc))) cfg6 in
      let cfg8 = set_var (str "ItemIndex") (itoa (pos (row_index d proc))) cfg7 in
      set_item d raw cfg8

  module _ (w : World) where
    open w use {lib}
    open lib use {Ad, insert_expr, parse_expr}

    unfoldable pub set_expr : Str → Str → Ad → Ad
    set_expr attr val ad = elim (parse_expr val) [
      | none ↦ insert_string w attr val ad
      | some expr ↦ insert_expr ad attr expr
    ]

    unfoldable pub set_kind : AttrKind → Str → Bool → Str → Ad → Ad
    unfolding set_expr unquote
    set_kind kind_string attr v2 val ad = insert_string w attr val ad
    set_kind kind_expr attr v2 val ad = set_expr attr val ad
    set_kind kind_args attr v2 val ad =
        if v2
        then insert_string w (str "Arguments") (unquote val) ad
        else insert_string w (str "Args") val ad
    set_kind kind_env attr v2 val ad =
        if v2
        then insert_string w (str "Environment") (unquote val) ad
        else insert_string w (str "Env") val ad

    unfoldable pub set_spec : Option (Str × AttrKind) → Bool → Str → Ad → Ad
    unfolding set_kind
    set_spec none v2 val ad = ad
    set_spec (some (attr, kind)) v2 val ad = set_kind kind attr v2 val ad

    unfoldable pub apply_assign : Config → Assign → Ad → Ad
    unfolding set_spec set_expr trim_my_prefix trim_plus has_prefix_fold is_quoted find_spec
        attr_map
    apply_assign cfg a ad =
        if has_prefix_fold (str "factory.") a.key
        then (if equal_fold (drop_bytes (str "factory.") a.key) (str "iwd")
            then insert_string w (str "Iwd") (get cfg a.key) ad
            else ad)
        else if a.expr || (starts_with (str "+") a.key || has_prefix_fold (str "my.") a.key)
        then set_expr (trim_my_prefix (trim_plus a.key)) (get cfg a.key) ad
        else set_spec (find_spec (to_lower a.key) attr_map) (is_quoted a.value) (get cfg a.key) ad

    unfoldable pub apply_assigns : Config → List Assign → Ad → Ad
    unfolding apply_assign
    apply_assigns cfg [] ad = ad
    apply_assigns cfg (a ∷ rest) ad = apply_assigns cfg rest (apply_assign cfg a ad)

    -- Materialize, which does not fail; the macros it sets stay in the digest's Config, and each proc
    -- sets them all again.
    unfoldable pub materialize_row : Digest → ℤ → ℕ → Str → Ad
    unfolding apply_assigns live_vars
    materialize_row d cluster proc raw =
        apply_assigns (live_vars d cluster proc raw) d.assigns lib.new
