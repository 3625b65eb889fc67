-- ===== src/Negotiate/Registered.antt =====
-- packages/core/src/negotiate.ts: what a registry lists after any calls.
use subspace_transceiver.Prelude.{
  ◌≡◌, refl, sym, ap, ◌∙◌, ◌↔◌, true, List, [], ◌∷◌, Option, none, some, if◌then◌else◌, Elem,
  Elem-filter, filter-Elem,
}
use subspace_transceiver.Prelude.Dict
use subspace_transceiver.Prelude.Keyed.{IsKeyed, nothing, set-IsKeyed, delete-IsKeyed, values_iff}
use subspace_transceiver.Prelude.Text.{Text, text_eq, starts_with}
use subspace_transceiver.Negotiate.{
  CapabilityDeclaration, Registry, register, unregister, register_initial, new_registry, passes,
  list, Call, call, calls,
}

-- The declaration that stands for an identifier after some of them in turn.
unfoldable pub latest_initial :
    Text → List CapabilityDeclaration → Option CapabilityDeclaration → Option CapabilityDeclaration
latest_initial nsid [] found = found
latest_initial nsid (cap ∷ caps) found =
    latest_initial nsid caps (if text_eq cap.nsid nsid then some cap else found)

unfoldable pub latest :
    Text → List Call → Option CapabilityDeclaration → Option CapabilityDeclaration
latest nsid [] found = found
latest nsid (Call.registered cap ∷ cs) found =
    latest nsid cs (if text_eq cap.nsid nsid then some cap else found)
latest nsid (Call.unregistered gone ∷ cs) found =
    latest nsid cs (if text_eq gone nsid then none else found)

get-register_initial :
    (nsid : Text) (caps : List CapabilityDeclaration) (m : Registry)
    → Dict.get nsid (register_initial caps m) ≡ latest_initial nsid caps (Dict.get nsid m)
unfolding register_initial register latest_initial
get-register_initial nsid [] m = refl
get-register_initial nsid (cap ∷ caps) m =
    get-register_initial nsid caps (Dict.set cap.nsid cap m)
    ∙ ap (latest_initial nsid caps) (Dict.get-set cap.nsid nsid cap m)

get-calls :
    (nsid : Text) (cs : List Call) (m : Registry)
    → Dict.get nsid (calls cs m) ≡ latest nsid cs (Dict.get nsid m)
unfolding calls call register unregister latest
get-calls nsid [] m = refl
get-calls nsid (Call.registered cap ∷ cs) m =
    get-calls nsid cs (Dict.set cap.nsid cap m)
    ∙ ap (latest nsid cs) (Dict.get-set cap.nsid nsid cap m)
get-calls nsid (Call.unregistered gone ∷ cs) m =
    get-calls nsid cs (Dict.delete gone m) ∙ ap (latest nsid cs) (Dict.get-delete gone nsid m)

register_initial-IsKeyed :
    (caps : List CapabilityDeclaration) (m : Registry)
    → IsKeyed (λ cap. cap.nsid) m
    → IsKeyed (λ cap. cap.nsid) (register_initial caps m)
unfolding register_initial register
register_initial-IsKeyed [] m h = h
register_initial-IsKeyed (cap ∷ caps) m h =
    register_initial-IsKeyed caps (Dict.set cap.nsid cap m) (set-IsKeyed (λ cap. cap.nsid) cap m h)

calls-IsKeyed :
    (cs : List Call) (m : Registry)
    → IsKeyed (λ cap. cap.nsid) m
    → IsKeyed (λ cap. cap.nsid) (calls cs m)
unfolding calls call register unregister
calls-IsKeyed [] m h = h
calls-IsKeyed (Call.registered cap ∷ cs) m h =
    calls-IsKeyed cs (Dict.set cap.nsid cap m) (set-IsKeyed (λ cap. cap.nsid) cap m h)
calls-IsKeyed (Call.unregistered gone ∷ cs) m h =
    calls-IsKeyed cs (Dict.delete gone m) (delete-IsKeyed (λ cap. cap.nsid) gone m h)

listed_iff :
    (initial : List CapabilityDeclaration) (cs : List Call) (cap : CapabilityDeclaration)
    → Elem cap (Dict.values (calls cs (new_registry initial)))
      ↔ (latest cap.nsid cs (latest_initial cap.nsid initial none) ≡ some cap)
unfolding new_registry Dict.get
listed_iff initial cs cap =
    let m = register_initial initial [] in
    let kept =
      values_iff (λ c. c.nsid) cap (calls cs m)
        (calls-IsKeyed cs m (register_initial-IsKeyed initial [] (nothing (λ c. c.nsid)))) in
    let at =
      get-calls cap.nsid cs m
      ∙ ap (latest cap.nsid cs) (get-register_initial cap.nsid initial []) in
    (λ h. sym at ∙ kept.0 h, λ h. kept.1 (at ∙ h))

-- A registry that starts from any declarations lists for a prefix, after any calls of register and
-- unregister, exactly the declarations that are the latest of their identifier, not unregistered since,
-- and start with the prefix.
pub list_iff :
    (initial : List CapabilityDeclaration) (cs : List Call) (prefix : Text)
    (cap : CapabilityDeclaration)
    → Elem cap (list (some prefix) (calls cs (new_registry initial))) ↔ (
        (latest cap.nsid cs (latest_initial cap.nsid initial none) ≡ some cap)
        × (starts_with cap.nsid prefix ≡ true))
unfolding list passes starts_with
list_iff initial cs [] cap =
    (λ h. ((listed_iff initial cs cap).0 h, refl), λ h. (listed_iff initial cs cap).1 h.0)
list_iff initial cs (c ∷ prefix) cap = (
  λ h.
      let (listed, begins) = Elem-filter (passes (c ∷ prefix)) cap _ h in
      ((listed_iff initial cs cap).0 listed, begins),
  λ h. filter-Elem (passes (c ∷ prefix)) cap _ ((listed_iff initial cs cap).1 h.0) h.1,
)
