-- ===== src/Server/Middleware/Paths.antt =====
-- What the gate reads off a path.
use ovro.Server.Middleware.{
  resource_of_parts, namespace_of_parts, trim_slash, resource_from_path, split,
  extract_namespace_from_path,
}
use ovro.Prelude.{
  [], List, arith, ap, ◌∙◌, ◌&&◌, ◌==◌, ◌∷◌, not, true, ◌≡◌, ◌<>◌, Bool, ℕ, String, refl,
}
use Prim.Native.Char.{code}
use Prim.Native.String.append

-- No character of the text has the code.
unfoldable pub lacks : ℕ → String → Bool
lacks sep String.[] = true
lacks sep (String.◌∷◌ c s) = not (code c == sep) && lacks sep s

-- `a/s`.
abbrev pub under : String → String → String
under a s = a <> String.◌∷◌ "/" s

-- Splitting at the slash after a part without one yields that part.
split-under : (a s : String) → lacks 47 a ≡ true → split 47 (under a s) ≡ a ∷ split 47 s
unfolding split lacks
split-under String.[] s l = rw (append.nil (String.◌∷◌ "/" s)) refl
split-under (String.◌∷◌ c a) s l =
    ground
      (arith, append.cons c a (String.◌∷◌ "/" s), append.cons c "" a, append.nil a, split-under a s)

-- A text without a slash is one part.
split-lone : (a : String) → lacks 47 a ≡ true → split 47 a ≡ a ∷ []
unfolding split lacks
split-lone String.[] l = refl
split-lone (String.◌∷◌ c a) l = ground (arith, append.cons c "" a, append.nil a, split-lone a)

-- The path of a recommendation, with all that follows its namespace.
abbrev pub console_path : String → String → String
console_path namespace tail =
    under "" (under "api" (under "v1" (under "recommendations" (under namespace tail))))

-- The gate reads the namespace and the resource of recommendations off a path.
abbrev pub IsRead : String → String → Type 0
IsRead path namespace =
    (extract_namespace_from_path path ≡ namespace)
    × (resource_from_path path ≡ "rightsizingrecommendations")

console_path-parts :
    (namespace tail : String)
    → lacks 47 namespace ≡ true
    → split 47 (trim_slash (console_path namespace tail))
      ≡ "api" ∷ "v1" ∷ "recommendations" ∷ namespace ∷ split 47 tail
unfolding lacks trim_slash
console_path-parts namespace tail l =
    let kind = under "recommendations" (under namespace tail) in
    let parts : split 47 (under "api" (under "v1" kind))
        ≡ "api" ∷ "v1" ∷ "recommendations" ∷ namespace ∷ split 47 tail =
      split-under "api" (under "v1" kind) refl
      ∙ ap (λ x. "api" ∷ x)
          (split-under "v1" kind refl
            ∙ ap (λ x. "v1" ∷ x)
                (split-under "recommendations" (under namespace tail) refl
                  ∙ ap (λ x. "recommendations" ∷ x) (split-under namespace tail l))) in
    rw (append.nil (String.◌∷◌ "/" (under "api" (under "v1" kind)))) parts

console_path-IsRead :
    (namespace tail name : String) (rest : List String)
    → lacks 47 namespace ≡ true
    → split 47 tail ≡ name ∷ rest
    → IsRead (console_path namespace tail) namespace
unfolding extract_namespace_from_path resource_from_path namespace_of_parts resource_of_parts
console_path-IsRead namespace tail name rest l parts =
    let read = console_path-parts namespace tail l in (rw (read, parts) refl, rw read refl)

-- For a namespace and a name without a slash, the path of a console request about a recommendation,
-- of its page as well as of an action on it, gives back the namespace, and the resource of
-- recommendations.
pub extract_namespace_from_path_lem :
    (namespace name action : String)
    → lacks 47 namespace ≡ true
    → lacks 47 name ≡ true
    → IsRead (console_path namespace name) namespace
      × IsRead (console_path namespace (under name action)) namespace
extract_namespace_from_path_lem namespace name action l m = (
  console_path-IsRead namespace name name [] l (split-lone name m),
  console_path-IsRead namespace (under name action) name (split 47 action) l
      (split-under name action m),
)
