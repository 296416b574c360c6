-- ===== src/AclSync/Service/Channel.antt =====
-- What the events that wait in the channel will make of a tuple.
use groundwork.Base.{
  ◌≡◌, refl, sym, ap, ◌∙◌, Bool, true, false, ◌||◌, List, [], ◌∷◌, ◌++◌, arith, contains,
  Bool-cases, inl, inr,
}
use groundwork.AclSync.Model.{PermissionChange}
use groundwork.AclSync.Tuples.{Tuple, tuple_eq}
use groundwork.AclSync.Change.{change_to_tuples}
use groundwork.AclSync.Service.Following.{settle}

-- Whether a tuple is held once the events are applied in their order.
unfoldable pub final : List PermissionChange → Tuple → Bool → Bool
final [] x b = b
final (c ∷ cs) x b = final cs x (settle c x b)

unfoldable pub touches : PermissionChange → Tuple → Bool
touches c x = let (writes, deletes) = change_to_tuples c in contains writes x || contains deletes x

-- Whether one of the events is about the tuple.
unfoldable pub touched : List PermissionChange → Tuple → Bool
unfolding touches
touched [] x = false
touched (c ∷ cs) x = touches c x || touched cs x

pub final-append :
    (cs ds : List PermissionChange) (x : Tuple) (b : Bool)
    → final (cs ++ ds) x b ≡ final ds x (final cs x b)
unfolding final
final-append [] ds x b = refl
final-append (c ∷ cs) ds x b = final-append cs ds x (settle c x b)

-- An event that touches the tuple decides it.
settle-touched :
    (c : PermissionChange) (x : Tuple) (b b' : Bool)
    → touches c x ≡ true
    → settle c x b ≡ settle c x b'
unfolding settle touches
settle-touched c x b b' h = ground arith

settle-untouched :
    (c : PermissionChange) (x : Tuple) (b : Bool) → touches c x ≡ false → settle c x b ≡ b
unfolding settle touches
settle-untouched c x b h = ground arith

final-touched :
    (cs : List PermissionChange) (x : Tuple) (b b' : Bool)
    → touched cs x ≡ true
    → final cs x b ≡ final cs x b'
unfolding final touched
final-touched [] x b b' h = absurd (cc h)
final-touched (c ∷ cs) x b b' h = elim (Bool-cases (touches c x)) [
  | inl met ↦ ap (final cs x) (settle-touched c x b b' met)
  | inr unmet ↦ final-touched cs x (settle c x b) (settle c x b') (ground arith)
]

final-untouched :
    (cs : List PermissionChange) (x : Tuple) (b : Bool) → touched cs x ≡ false → final cs x b ≡ b
unfolding final touched
final-untouched [] x b h = refl
final-untouched (c ∷ cs) x b h =
    final-untouched cs x (settle c x b) (ground arith) ∙ settle-untouched c x b (ground arith)

-- Events that lead from any value to `goal` lead from `goal` to it.
pub final_fixed :
    (cs : List PermissionChange) (x : Tuple) (b goal : Bool)
    → final cs x b ≡ goal
    → final cs x goal ≡ goal
final_fixed cs x b goal h = elim (Bool-cases (touched cs x)) [
  | inl met ↦ final-touched cs x goal b met ∙ h
  | inr unmet ↦ final-untouched cs x goal unmet
]

-- No two of the events are about one tuple.
unfoldable pub Apart : List PermissionChange → Type 0
Apart [] = Unit
Apart (c ∷ cs) = ((x : Tuple) → touches c x ≡ true → touched cs x ≡ false) × Apart cs

touched-append :
    (cs ds : List PermissionChange) (x : Tuple)
    → touched (cs ++ ds) x ≡ (touched cs x || touched ds x)
unfolding touched
touched-append [] ds x = refl
touched-append (c ∷ cs) ds x = ground (arith, touched-append cs ds x)

-- An event that is apart from those before it may as well come first.
pub final-middle :
    (before after : List PermissionChange) (c : PermissionChange) (x : Tuple) (b : Bool)
    → Apart (before ++ c ∷ after)
    → final (before ++ c ∷ after) x b ≡ final (c ∷ before ++ after) x b
unfolding final Apart touched
final-middle [] after c x b h = refl
final-middle (d ∷ before) after c x b h =
    final-middle before after c x (settle d x b) h.1
    ∙ ap (final (before ++ after) x) (elim (Bool-cases (touches d x)) [
      | inl met ↦
          let other : touches c x ≡ false =
            ground (arith, h.0 x met, touched-append before (c ∷ after) x) in
          settle-untouched c x (settle d x b) other
          ∙ ap (settle d x) (sym (settle-untouched c x b other))
      | inr unmet ↦
          ap (settle c x) (settle-untouched d x b unmet)
          ∙ sym (settle-untouched d x (settle c x b) unmet)
    ])

pub Apart-middle :
    (before after : List PermissionChange) (c : PermissionChange)
    → Apart (before ++ c ∷ after)
    → Apart (before ++ after)
unfolding Apart touched
Apart-middle [] after c h = h.1
Apart-middle (d ∷ before) after c h = (
  λ x met.
      ground (arith, h.0 x met, touched-append before (c ∷ after) x, touched-append before after x),
  Apart-middle before after c h.1,
)

pub Apart-append :
    (cs : List PermissionChange) (c : PermissionChange)
    → ((x : Tuple) → touches c x ≡ true → touched cs x ≡ false)
    → Apart cs
    → Apart (cs ++ c ∷ [])
unfolding Apart touched
Apart-append [] c new h = (λ x met. refl, tt)
Apart-append (d ∷ cs) c new h = (
  λ x met. ground (arith, h.0 x met, new x, touched-append cs (c ∷ []) x),
  Apart-append cs c (λ x met. ground (arith, new x met)) h.1,
)
