-- ===== src/Negotiate/Tests.antt =====
-- The built-in registry after two calls, and the theorem at a concrete input.
use subspace_transceiver.Prelude.{◌≡◌, refl, true, List, [], ◌∷◌, none, some, length, all}
use subspace_transceiver.Prelude.Dict
use subspace_transceiver.Prelude.Text.{codes, text_eq, starts_with, split}
use subspace_transceiver.Nsid.{is_valid_nsid, is_valid_segment}
use subspace_transceiver.Negotiate.{
  CapabilityRole, CapabilityDeclaration, built_in_capabilities, register, unregister,
  register_initial, new_registry, passes, list, Call, call, calls,
}

abbrev mail : CapabilityDeclaration
mail = record {
  nsid = codes "net.subspace.mail";
  version = codes "1.0.0";
  role = CapabilityRole.provider;
  metadata = none;
}

abbrev cs : List Call
cs = Call.registered mail ∷ Call.unregistered (codes "net.subspace.protocol.query") ∷ []

all_valid : all (λ cap. is_valid_nsid cap.nsid) built_in_capabilities ≡ true
unfolding is_valid_nsid is_valid_segment split
all_valid = refl

three_protocols :
    length
      (list (some (codes "net.subspace.protocol.")) (calls cs (new_registry built_in_capabilities)))
    ≡ 3
unfolding Dict.set Dict.delete text_eq starts_with register unregister register_initial new_registry
    passes list call calls
three_protocols = refl
