-- ===== src/MiniRpc/Registry.antt =====
-- `ServiceRegistry` of code/MiniRPC/src/service_registry.cpp. `H` is the type of handlers; an empty one
-- is `none`. A map is the list of its entries.
use unix_notes.Prelude.{
  ℕ, ◌≡◌, refl, sym, ap, subst, ◌∙◌, inl, inr, Bool, true, false, ◌&&◌, ◌||◌, List, [], ◌∷◌, Option,
  none, some, arith, if◌then◌else◌, Bool-cases,
}
use unix_notes.MiniRpc.Codec.{equal, is_empty}
use unix_notes.MiniRpc.Codec.Request.{equal→eq}

pub data LookupResult (H : Type 0) : Type 0 where
  service_not_found method_not_found : LookupResult H
  found : H → LookupResult H

abbrev pub find_key {ℓ} : {V : Type ℓ} → List ℕ → List (List ℕ × V) → Option V
find_key key [] = none
find_key key ((k, v) ∷ entries) = if equal k key then some v else find_key key entries

-- `map[key] = value`
abbrev pub assign_key {ℓ} : {V : Type ℓ} → List ℕ → V → List (List ℕ × V) → List (List ℕ × V)
assign_key key value [] = (key, value) ∷ []
assign_key key value ((k, v) ∷ entries) =
    if equal k key then (k, value) ∷ entries else (k, v) ∷ assign_key key value entries

abbrev pub Services : Type 0 → Type 0
Services H = List (List ℕ × List (List ℕ × H))

module _ {H : Type 0} where
  -- `services_[name]`: an entry that is missing is empty.
  abbrev pub methods_of : List ℕ → Services H → List (List ℕ × H)
  methods_of name services = elim (find_key name services) [ none ↦ [] | some methods ↦ methods ]

  unfoldable pub register_method :
      (service_name method_name : List ℕ) → Option H → Services H → Services H × Bool
  register_method service_name method_name none services = (services, false)
  register_method service_name method_name (some handler) services =
      let methods = methods_of service_name services in
      if is_empty service_name || is_empty method_name
      then (services, false)
      else elim (find_key method_name methods) [
        | none ↦ (assign_key service_name (assign_key method_name handler methods) services, true)
        | some _ ↦ (assign_key service_name methods services, false)
      ]

  unfoldable pub find_method : (service_name method_name : List ℕ) → Services H → LookupResult H
  find_method service_name method_name services = elim (find_key service_name services) [
    | none ↦ service_not_found
    | some methods ↦ elim (find_key method_name methods) [
      | none ↦ method_not_found
      | some handler ↦ found handler
    ]
  ]

  abbrev pub handler_of : LookupResult H → Option H
  handler_of (found handler) = some handler
  handler_of _ = none

  abbrev pub is_none : Option H → Bool
  is_none none = true
  is_none (some _) = false

equal_same : (a : List ℕ) → equal a a ≡ true
equal_same [] = refl
equal_same (x ∷ xs) = ground (arith, equal_same xs)

equal_join : (a b c : List ℕ) → equal a c ≡ true → equal b c ≡ true → equal a b ≡ true
equal_join a b c h k =
    subst (λ x. equal a x ≡ true) (equal→eq a c h ∙ sym (equal→eq b c k)) (equal_same a)

-- What stands under a key after an assignment.
find_key-assign_key {ℓ} :
    {V : Type ℓ} (key other : List ℕ) (value : V) (entries : List (List ℕ × V))
    → find_key other (assign_key key value entries)
      ≡ (if equal key other then some value else find_key other entries)
find_key-assign_key key other value [] = refl
find_key-assign_key key other value ((k, v) ∷ entries) = elim (Bool-cases (equal k key)) [
  | inl same ↦ ground (arith, same, ap (λ x. equal x other) (equal→eq k key same))
  | inr differs ↦
      ground (arith, differs, find_key-assign_key key other value entries, equal_join k key other)
]

module _ {H : Type 0} where
  -- A handler is registered under names that are not empty and have none yet, and found again under
  -- just those; whatever the names, every other method is found as before.
  pub find-register :
      (s m s' m' : List ℕ) (handler : H) (services : Services H)
      → is_empty s ≡ false
      → is_empty m ≡ false
      → let (services', added) = register_method s m (some handler) services in
        let before = handler_of (find_method s m services) in
        (added ≡ is_none before)
        × (handler_of (find_method s' m' services') ≡ (
            if equal s s' && equal m m' && is_none before
            then some handler
            else handler_of (find_method s' m' services)))
  unfolding register_method find_method
  find-register s m s' m' handler services a b =
      let methods = methods_of s services in
      ground (
        arith,
        find_key-assign_key s s' (assign_key m handler methods) services,
        find_key-assign_key s s' methods services,
        find_key-assign_key m m' handler methods,
        (λ (e : equal s s' ≡ true). ap (λ x. find_key x services) (equal→eq s s' e)),
        (λ (e : equal m m' ≡ true). ap (λ x. find_key x methods) (equal→eq m m' e)),
      )
