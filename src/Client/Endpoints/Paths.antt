-- ===== src/Client/Endpoints/Paths.antt =====
-- The paths of resources: no two resources share one, as long as namespaces hold no slash.
use Prim.Native.String.{String, [], ◌∷◌}
use text.Mathlib.TextLemmas.{
  cons-append, nil-append, head-eq_of_cons-eq, tail-eq_of_cons-eq, append_cancel_left,
}
use mathlib.Core.Path.{ap₂}
use drop_the_mic.Base.{◌≡◌, ◌≢◌, refl, sym, ◌∙◌, List}
use drop_the_mic.Base.Text.{◌<>◌}
use drop_the_mic.Client.Endpoints.{delete_policy, path_of}

abbrev pub NoSlash : String → Type 0
NoSlash [] = Unit
NoSlash (c ∷ s) = (c ≢ "/") × NoSlash s

slash : (s : String) → "/" <> s ≡ "/" ∷ s
slash s = rw (cons-append "/" "" s, nil-append s)

front : (s : String) → "" <> "/" <> s ≡ "/" ∷ s
front s = nil-append ("/" <> s) ∙ slash s

split_inj :
    (a b c d : String) → NoSlash a → NoSlash c → a <> "/" <> b ≡ c <> "/" <> d → (a ≡ c) × (b ≡ d)
split_inj [] b [] d h k e = (refl, tail-eq_of_cons-eq (sym (front b) ∙ e ∙ front d))
split_inj [] b (z ∷ c) d h (ne, k) e =
    absurd (ne (sym (head-eq_of_cons-eq (sym (front b) ∙ e ∙ cons-append z c ("/" <> d)))))
split_inj (y ∷ a) b [] d (ne, h) k e =
    absurd (ne (head-eq_of_cons-eq (sym (cons-append y a ("/" <> b)) ∙ e ∙ front d)))
split_inj (y ∷ a) b (z ∷ c) d (ny, h) (nz, k) e =
    let q = sym (cons-append y a ("/" <> b)) ∙ e ∙ cons-append z c ("/" <> d) in
    let (p, r) = split_inj a b c d h k (tail-eq_of_cons-eq q) in
    (ap₂ ◌∷◌ (head-eq_of_cons-eq q) p, r)

-- Two policies have one path only if they are one policy, as long as their namespaces hold no slash.
pub policy_path_inj :
    (query_string : List (String × String) → String) (ns ns' name name' : String)
    → NoSlash ns
    → NoSlash ns'
    → path_of query_string (delete_policy ns name) ≡ path_of query_string (delete_policy ns' name')
    → (ns ≡ ns') × (name ≡ name')
unfolding path_of
policy_path_inj query_string ns ns' name name' h k e =
    split_inj ns name ns' name' h k (append_cancel_left "/policies/" _ _ e)
