-- ===== src/Artifacts/Names.antt =====
-- The names of the states of src/artifact_lifecycle.cpp.
use bittorrent_peer_linking.Base.{
  ◌≡◌, ◌⊎◌, inl, inr, Bool-cases, refl, sym, String, str_eq, str_eq_iff,
}
use bittorrent_peer_linking.Artifacts.{
  ArtifactState, capturing, ready_to_upload, archived, unknown, artifact_state_name,
  artifact_state_from_string,
}

pub from_name : (s : ArtifactState) → artifact_state_from_string (artifact_state_name s) ≡ s
unfolding artifact_state_name artifact_state_from_string
from_name capturing = refl
from_name ready_to_upload = refl
from_name archived = refl
from_name unknown = refl

name_of :
    (value : String)
    → (artifact_state_from_string value ≡ unknown)
      ⊎ (artifact_state_name (artifact_state_from_string value) ≡ value)
unfolding artifact_state_name artifact_state_from_string
name_of value = elim (Bool-cases (str_eq value "capturing")) [
  | inl e ↦ inr (rw e (sym ((str_eq_iff value "capturing").0 e)))
  | inr e ↦ elim (Bool-cases (str_eq value "ready_to_upload")) [
    | inl e' ↦ inr (rw (e, e') (sym ((str_eq_iff value "ready_to_upload").0 e')))
    | inr e' ↦ elim (Bool-cases (str_eq value "archived")) [
      | inl e'' ↦ inr (rw (e, e', e'') (sym ((str_eq_iff value "archived").0 e'')))
      | inr e'' ↦ inl (rw (e, e', e''))
    ]
  ]
]

-- The name of a state is read back as that state, and a text that is read as a state other than
-- unknown is the name of that state.
pub names-round_trip :
    ((s : ArtifactState) → artifact_state_from_string (artifact_state_name s) ≡ s)
    × ((value : String)
        → (artifact_state_from_string value ≡ unknown)
          ⊎ (artifact_state_name (artifact_state_from_string value) ≡ value))
unfolding artifact_state_name artifact_state_from_string
names-round_trip = (from_name, name_of)
