-- ===== src/Runtime/Tools/Workspace/Writes.antt =====
-- tools.py: what `workspace_write` leaves alone.
use Prim.Native.String
use evoagent_os.Base.{
  ◌≡◌, refl, sym, ap, subst, String, true, false, ◌||◌, List, [], ◌∷◌, some, Bool-cases, inl, inr,
  if◌then◌else◌, ◌==◌, eq_true, and_true, ltb,
}
use evoagent_os.Base.Rows.{find}
use evoagent_os.Base.Action.{◌>>=◌, ◌>>◌, pure, modify, raise_if, or_raise, gets}
use evoagent_os.Runtime.Store.{
  file_too_large, no_directory, file_written, not_in_subpath, FileContent,
}
use evoagent_os.Runtime.Tools.{ToolContext, argument}
use evoagent_os.Runtime.Tools.Builtins.{
  workspace_write, safe_workspace_path, is_blocked, join_path, relative_to, write_file, path_eq,
  is_file, is_within,
}
use evoagent_os.Runtime.Tools.Sparing.{
  IsSpared-refl, Sparing, Sparing-bind, Sparing-gets, Sparing-or_raise, Sparing-pure,
  Sparing-raise_if,
}

path_eq_sound : (p q : List String) → path_eq p q ≡ true → p ≡ q
path_eq_sound [] [] h = refl
path_eq_sound [] (q ∷ qs) h = cc
path_eq_sound (p ∷ ps) [] h = cc
path_eq_sound (p ∷ ps) (q ∷ qs) h =
    let (same, rest) = and_true (p == q) (path_eq ps qs) h in
    let e = eq_true p q same in let es = path_eq_sound ps qs rest in cc

-- A write shows under no other path.
find-write_file :
    (path other : List String) (content : String) (files : List (List String × FileContent))
    → path_eq path other ≡ false
    → find (is_file other) (write_file path content files) ≡ find (is_file other) files
unfolding find write_file
find-write_file path other content [] differ = rw differ
find-write_file path other content (f ∷ fs) differ = elim (Bool-cases (path_eq f.0 path)) [
  | inl same ↦
      let e = path_eq_sound f.0 path same in
      let old : path_eq f.0 other ≡ false = subst (λ x. path_eq x other ≡ false) (sym e) differ in
      rw (same, differ, old)
  | inr new ↦ rw new (
      ap (λ r. if path_eq f.0 other then some f else r)
        (find-write_file path other content fs differ))
]

-- A path outside the workspace is not the one that a write inside it names.
path_apart :
    (root path other : List String)
    → is_within root path ≡ true
    → is_within root other ≡ false
    → path_eq path other ≡ false
path_apart root path other inside outside = elim (Bool-cases (path_eq path other)) [
  | inl same ↦ let e = path_eq_sound path other same in cc
  | inr new ↦ new
]

write-Sparing :
    (context : ToolContext) (path : List String) (content : String)
    → is_within (context.outside.resolve context.workspace "") path ≡ true
    → Sparing context (modify (λ s. record s { files = write_file path content s.files }))
write-Sparing context path content inside = record {
  at = λ s. record {
    runs = refl;
    approvals = refl;
    outside = λ other h.
        find-write_file path other content s.files
          (path_apart (context.outside.resolve context.workspace "") path other inside h);
  };
}

rest_of_write :
    (context : ToolContext) (path : List String) (content : String)
    → is_within (context.outside.resolve context.workspace "") path ≡ true
    → Sparing context (
        raise_if (ltb 1_000_000 (String.len content)) file_too_large
        >> ((gets (λ s. is_blocked path s.files)) >>= λ taken.
            raise_if
              (path_eq path (context.outside.resolve context.workspace "") || taken)
              no_directory
            >> (modify (λ s. record s { files = write_file path content s.files })
                >> (or_raise not_in_subpath (relative_to context.workspace path) >>= λ below.
                    pure (file_written (join_path below) (String.len content))))))
rest_of_write context path content inside =
    Sparing-bind context _ _
      (Sparing-raise_if context (ltb 1_000_000 (String.len content)) file_too_large)
      (λ _. Sparing-bind context _ _ (Sparing-gets context (λ s. is_blocked path s.files)) (λ taken.
        Sparing-bind context _ _
          (Sparing-raise_if context
            (path_eq path (context.outside.resolve context.workspace "") || taken) no_directory)
          (λ _. Sparing-bind context _ _ (write-Sparing context path content inside) (λ _.
            Sparing-bind context _ _
              (Sparing-or_raise context not_in_subpath (relative_to context.workspace path))
              (λ below.
                Sparing-pure context (file_written (join_path below) (String.len content)))))))

pub workspace_write-Sparing :
    (arguments : List (String × String)) (context : ToolContext)
    → Sparing context (workspace_write arguments context)
unfolding workspace_write safe_workspace_path
workspace_write-Sparing arguments context =
    let root = context.outside.resolve context.workspace "" in
    let path = context.outside.resolve context.workspace (argument "path" arguments) in
    elim (Bool-cases (is_within root path)) [
      | inl inside ↦ record {
        at = λ s.
            rw (inside, workspace_write, safe_workspace_path)
              ((rest_of_write context path (argument "content" arguments) inside).at s);
      }
      | inr escapes ↦ record {
        at = λ s. rw (escapes, workspace_write, safe_workspace_path) (IsSpared-refl context s);
      }
    ]
