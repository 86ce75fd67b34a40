-- ===== src/Dialect/Signable/Binding.antt =====
-- A signature binds every field that has a meaning: dialects with the same canonical bytes have the
-- same fields (crates/cbcl-core/src/canonical.rs).
use cbcl_rs.Prelude.{List, String, [], false, map, ne_of_test, refl, sym, ◌==◌, ◌∙◌, ◌≡◌, ◌≢◌}
use cbcl_rs.Dialect.Signable.Clauses.{normal_entries, state_determines, state_bounds_injective}
use cbcl_rs.Dialect.Signable.State.{state_to_sexpr, state_bounds_to_sexpr}
use cbcl_rs.Dialect.Signable.Segments.{
  state_head, bounds_head, NoneHas, NoneHas-segment, derives, head_symbol, locality_head,
  locality_injective, protocol_head, protocol_option, resources_injective, roles_head,
  roles_injective, segment_cancel, shapes_head, shapes_injective, steps_of, unless_empty_injective,
}
use cbcl_rs.Sexpr.{SExpr}
use cbcl_rs.Dialect.{Dialect}
use cbcl_rs.Dialect.Signable.{
  state_segments, unless_empty, locality_segment, protocol_to_sexpr, shapes_to_sexpr,
  roles_to_sexpr, perf_to_sexpr, RoleLayer, to_signable_sexpr,
}
use cbcl_rs.Dialect.Signable.Forms.{text, from_option, option_map, segment}
use cbcl_rs.Dialect.Signable.Parts.{
  of_list_injective, map_injective, texts_injective, from_option_injective, option_map_injective,
  perf_injective,
}

-- Two dialects that agree on all that is signed.
pub record SameSigned (d e : Dialect RoleLayer) : Type 0 where
  pub same_name : d.name ≡ e.name
  pub same_extends : d.extends ≡ e.extends
  pub same_author : d.author ≡ e.author
  pub same_performatives : d.performatives ≡ e.performatives
  pub same_resources : d.resources ≡ e.resources
  pub same_examples : d.examples ≡ e.examples
  pub same_steps : steps_of d.causal_protocol ≡ steps_of e.causal_protocol
  pub same_shapes : d.shapes ≡ e.shapes
  pub same_roles : d.layers.roles ≡ e.layers.roles
  pub same_mode : derives d.layers.causal_locality ≡ derives e.layers.causal_locality
  pub same_state : normal_entries d.layers.state ≡ normal_entries e.layers.state
  pub same_bounds : d.layers.state_bounds ≡ e.layers.state_bounds

abbrev from_bounds : Dialect RoleLayer → List SExpr
from_bounds d = segment (option_map state_bounds_to_sexpr d.layers.state_bounds) []

abbrev from_mode : Dialect RoleLayer → List SExpr
from_mode d = segment (locality_segment d.layers.causal_locality) (state_segments d.layers)

abbrev from_roles : Dialect RoleLayer → List SExpr
from_roles d = segment (unless_empty roles_to_sexpr d.layers.roles) (from_mode d)

abbrev from_shapes : Dialect RoleLayer → List SExpr
from_shapes d = segment (unless_empty shapes_to_sexpr d.shapes) (from_roles d)

abbrev optional_segments : Dialect RoleLayer → List SExpr
optional_segments d = segment (option_map protocol_to_sexpr d.causal_protocol) (from_shapes d)

-- Heads that differ.
other_head : (t u : String) (e : SExpr) → (u == t) ≡ false → head_symbol e ≡ u → head_symbol e ≢ t
other_head t u e h q = λ r. ne_of_test u t h (sym q ∙ r)

bounds_lack : (d : Dialect RoleLayer) → NoneHas "state" (from_bounds d)
bounds_lack d =
    NoneHas-segment "state" (option_map state_bounds_to_sexpr d.layers.state_bounds) []
      (λ e h. other_head "state" "state-bounds" e refl (bounds_head d.layers.state_bounds e h)) tt

state_lacks :
    (t : String) (l : RoleLayer)
    → ("state" == t) ≡ false
    → ("state-bounds" == t) ≡ false
    → NoneHas t (state_segments l)
state_lacks t l a b =
    NoneHas-segment t (option_map state_to_sexpr l.state)
      (segment (option_map state_bounds_to_sexpr l.state_bounds) [])
      (λ e h. other_head t "state" e a (state_head l.state e h))
      (NoneHas-segment t (option_map state_bounds_to_sexpr l.state_bounds) []
        (λ e h. other_head t "state-bounds" e b (bounds_head l.state_bounds e h)) tt)

mode_lacks :
    (t : String) (d : Dialect RoleLayer)
    → ("causal-locality" == t) ≡ false
    → NoneHas t (state_segments d.layers)
    → NoneHas t (from_mode d)
mode_lacks t d a rest =
    NoneHas-segment t (locality_segment d.layers.causal_locality) (state_segments d.layers)
      (λ e h. other_head t "causal-locality" e a (locality_head d.layers.causal_locality e h)) rest

roles_lack :
    (t : String) (d : Dialect RoleLayer)
    → ("roles" == t) ≡ false
    → NoneHas t (from_mode d)
    → NoneHas t (from_roles d)
roles_lack t d a rest =
    NoneHas-segment t (unless_empty roles_to_sexpr d.layers.roles) (from_mode d)
      (λ e h. other_head t "roles" e a (roles_head d.layers.roles e h)) rest

shapes_lack :
    (t : String) (d : Dialect RoleLayer)
    → ("shapes" == t) ≡ false
    → NoneHas t (from_roles d)
    → NoneHas t (from_shapes d)
shapes_lack t d a rest =
    NoneHas-segment t (unless_empty shapes_to_sexpr d.shapes) (from_roles d)
      (λ e h. other_head t "shapes" e a (shapes_head d.shapes e h)) rest

lacks_roles : (d : Dialect RoleLayer) → NoneHas "roles" (from_mode d)
lacks_roles d = mode_lacks "roles" d refl (state_lacks "roles" d.layers refl refl)

lacks_shapes : (d : Dialect RoleLayer) → NoneHas "shapes" (from_roles d)
lacks_shapes d =
    roles_lack "shapes" d refl
      (mode_lacks "shapes" d refl (state_lacks "shapes" d.layers refl refl))

lacks_protocol : (d : Dialect RoleLayer) → NoneHas "causal-protocol" (from_shapes d)
lacks_protocol d = shapes_lack "causal-protocol" d refl (
    roles_lack "causal-protocol" d refl
      (mode_lacks "causal-protocol" d refl (state_lacks "causal-protocol" d.layers refl refl)))

pub to_signable_sexpr-binds :
    (d e : Dialect RoleLayer) → to_signable_sexpr d ≡ to_signable_sexpr e → SameSigned d e
unfolding to_signable_sexpr
to_signable_sexpr-binds d e h =
    let tails : optional_segments d ≡ optional_segments e =
      of_list_injective (optional_segments d) (optional_segments e) (cc h) in
    let (protocol, after1) =
      segment_cancel "causal-protocol" _ _ (from_shapes d) (from_shapes e)
        (protocol_head d.causal_protocol) (protocol_head e.causal_protocol) (lacks_protocol d)
        (lacks_protocol e) tails in
    let (shapes, after2) =
      segment_cancel "shapes" _ _ (from_roles d) (from_roles e) (shapes_head d.shapes)
        (shapes_head e.shapes) (lacks_shapes d) (lacks_shapes e) after1 in
    let (roles, after3) =
      segment_cancel "roles" _ _ (from_mode d) (from_mode e) (roles_head d.layers.roles)
        (roles_head e.layers.roles) (lacks_roles d) (lacks_roles e) after2 in
    let (mode, after4) =
      segment_cancel "causal-locality" _ _ _ _ (locality_head d.layers.causal_locality)
        (locality_head e.layers.causal_locality) (state_lacks "causal-locality" d.layers refl refl)
        (state_lacks "causal-locality" e.layers refl refl) after3 in
    let (clauses, after5) =
      segment_cancel "state" _ _ (from_bounds d) (from_bounds e) (state_head d.layers.state)
        (state_head e.layers.state) (bounds_lack d) (bounds_lack e) after4 in
    let (bounds, none_left) =
      segment_cancel "state-bounds" _ _ [] [] (bounds_head d.layers.state_bounds)
        (bounds_head e.layers.state_bounds) tt tt after5 in
    let author = λ (x : Dialect RoleLayer). from_option (option_map text x.author) in
    record {
      same_name = cc h;
      same_extends =
          texts_injective d.extends e.extends
            (of_list_injective (map text d.extends) (map text e.extends) (cc h));
      same_author =
          option_map_injective text (λ x y q. cc q) d.author e.author
            (from_option_injective (option_map text d.author) (option_map text e.author)
              (of_list_injective (author d) (author e) (cc h)));
      same_performatives =
          map_injective perf_to_sexpr perf_injective d.performatives e.performatives (
            of_list_injective (map perf_to_sexpr d.performatives)
              (map perf_to_sexpr e.performatives) (cc h));
      same_resources = resources_injective d.resources e.resources (cc h);
      same_examples = of_list_injective d.examples e.examples (cc h);
      same_steps = protocol_option d.causal_protocol e.causal_protocol protocol;
      same_shapes =
          unless_empty_injective shapes_to_sexpr shapes_injective d.shapes e.shapes shapes;
      same_roles =
          unless_empty_injective roles_to_sexpr roles_injective d.layers.roles e.layers.roles roles;
      same_mode = locality_injective d.layers.causal_locality e.layers.causal_locality mode;
      same_state = state_determines d.layers.state e.layers.state clauses;
      same_bounds =
          option_map_injective state_bounds_to_sexpr state_bounds_injective d.layers.state_bounds
            e.layers.state_bounds bounds;
    }
