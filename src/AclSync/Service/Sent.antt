-- ===== src/AclSync/Service/Sent.antt =====
-- What a membership change of the source makes of the tuples that it grants, beside its event.
use groundwork.Base.{
  String, ◌<◌, ◌≡◌, sym, ap, ◌∙◌, Bool, true, List, [], ◌∷◌, ◌++◌, map, length, arith, ◌==◌,
  string_eq, contains,
}
use groundwork.AclSync.Model.{PermissionChange}
use groundwork.AclSync.Tuples.{Tuple, tuple_eq, tuple_beq_iff, permission_set_to_tuples}
use groundwork.AclSync.Change.{change_of_type, change_to_tuples}
use groundwork.AclSync.MockConnector.{MockConnector, revoke_member, add_member, emit}
use groundwork.AclSync.MockConnector.Changes.{
  membership, without_member-permission_set, with_member-permission_set,
}
use groundwork.AclSync.Service.Following.{settle}
use groundwork.AclSync.Service.Channel.{final, final-append, touches, Apart, final-middle}

abbrev pub grants : MockConnector → Tuple → Bool
grants m = contains (permission_set_to_tuples m.permissions)

contains-one : (u x : Tuple) → contains (u ∷ []) x ≡ (u == x)
unfolding contains
contains-one u x = ground arith

-- A call on a membership makes of a value what the source grants then, if the value is what the
-- source granted before.
pub settle-revoke :
    (m : MockConnector) (group user : String) (x : Tuple)
    → settle (revoke_member m group user).1 x (grants m x) ≡ grants (revoke_member m group user).0 x
unfolding revoke_member settle change_to_tuples change_of_type contains
settle-revoke m group user x = ground (
  arith,
  without_member-permission_set group user m.permissions x,
  contains-one (membership group user) x,
)

pub settle-add :
    (m : MockConnector) (group user : String) (x : Tuple)
    → contains (map (λ g. g.id) m.permissions.groups) group ≡ true
    → settle (add_member m group user).1 x (grants m x) ≡ grants (add_member m group user).0 x
unfolding add_member settle change_to_tuples change_of_type contains
settle-add m group user x exists = ground (
  arith,
  with_member-permission_set group user m.permissions x,
  contains-one (membership group user) x,
)

-- The event of a call is about its membership alone.
pub touches-revoke :
    (m : MockConnector) (group user : String) (x : Tuple)
    → touches (revoke_member m group user).1 x ≡ true
    → membership group user ≡ x
unfolding revoke_member touches change_to_tuples change_of_type contains
touches-revoke m group user x h = (tuple_beq_iff (membership group user) x).0 (ground arith)

pub touches-add :
    (m : MockConnector) (group user : String) (x : Tuple)
    → touches (add_member m group user).1 x ≡ true
    → membership group user ≡ x
unfolding add_member touches change_to_tuples change_of_type contains
touches-add m group user x h = (tuple_beq_iff (membership group user) x).0 (ground arith)

pub emit_room :
    (c : PermissionChange) (m : MockConnector)
    → length m.changes < 64
    → emit c m ≡ record m { changes = m.changes ++ c ∷ [] }
unfolding emit
emit_room c m room = ground arith

-- What is settled by a further event, after those in the channel and those on their way.
pub final_further :
    (cs ds : List PermissionChange) (c : PermissionChange) (x : Tuple) (b : Bool)
    → final (cs ++ (ds ++ c ∷ [])) x b ≡ settle c x (final (cs ++ ds) x b)
unfolding final
final_further cs ds c x b =
    final-append cs (ds ++ c ∷ []) x b
    ∙ final-append ds (c ∷ []) x (final cs x b)
    ∙ ap (settle c x) (sym (final-append cs ds x b))

-- An event on its way goes into the channel.
pub final_sent :
    (cs before after : List PermissionChange) (c : PermissionChange) (x : Tuple) (b : Bool)
    → Apart (before ++ c ∷ after)
    → final ((cs ++ c ∷ []) ++ (before ++ after)) x b ≡ final (cs ++ (before ++ c ∷ after)) x b
unfolding final
final_sent cs before after c x b apart =
    final-append (cs ++ c ∷ []) (before ++ after) x b
    ∙ ap (final (before ++ after) x) (final-append cs (c ∷ []) x b)
    ∙ sym (final-middle before after c x (final cs x b) apart)
    ∙ sym (final-append cs (before ++ c ∷ after) x b)
