-- ===== src/Store/Paths.antt =====
-- Unix paths as `std::path::Path` compares them: by their components, so a repeated or trailing
-- slash and a `.` inside a path do not count.
use Prim.Native.Nat.{compare, Ordering}
use Prim.Native.Char.{Char, code}
use atelia_secretary.Base.{
  String, Bool, true, false, not, ◌&&◌, ◌||◌, List, [], ◌∷◌, ◌==◌, if◌then◌else◌, string_eq,
}

is_slash : Char → Bool
is_slash c = elim (compare (code c) b'/') [ Ordering.eq ↦ true | _ ↦ false ]

extend_first : Char → List String → List String
extend_first c [] = []
extend_first c (part ∷ parts) = String.◌∷◌ c part ∷ parts

-- The pieces between slashes, empty ones too.
split_slashes : String → List String
unfolding is_slash extend_first
split_slashes String.[] = "" ∷ []
split_slashes (String.◌∷◌ c s) =
    let parts = split_slashes s in if is_slash c then "" ∷ parts else extend_first c parts

normal_parts : List String → List String
normal_parts [] = []
normal_parts (part ∷ parts) =
    let rest = normal_parts parts in if part == "" || part == "." then rest else part ∷ rest

relative_parts : List String → List String
unfolding normal_parts
relative_parts [] = []
relative_parts (part ∷ parts) =
    if part == "." then part ∷ normal_parts parts else normal_parts (part ∷ parts)

-- `Path::components`; the root of an absolute path is the component "/".
unfoldable pub components : String → List String
unfolding is_slash split_slashes relative_parts
components String.[] = []
components (String.◌∷◌ c s) =
    if is_slash c
    then "/" ∷ normal_parts (split_slashes s)
    else relative_parts (split_slashes (String.◌∷◌ c s))

unfoldable pub is_prefix : List String → List String → Bool
is_prefix [] path = true
is_prefix (a ∷ prefix) [] = false
is_prefix (a ∷ prefix) (b ∷ path) = a == b && is_prefix prefix path

unfoldable pub same_components : List String → List String → Bool
same_components [] [] = true
same_components (a ∷ left) (b ∷ right) = a == b && same_components left right
same_components _ _ = false

-- Distinct roots, one of them above the other.
unfoldable pub repository_roots_strictly_overlap : String → String → Bool
repository_roots_strictly_overlap candidate_root blocked_root =
    let candidate = components candidate_root in
    let blocked = components blocked_root in
    not (same_components candidate blocked)
    && (is_prefix blocked candidate || is_prefix candidate blocked)
