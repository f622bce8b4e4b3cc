-- ===== src/Status/Names.antt =====
-- backend/src/utils/orderStatus.js, lines 7 to 49: the status names, and the comparison of statuses,
-- which in the source are texts.
use meatvo_app.Base.{
  ==_iff, Bool, List, Text, [], any, ap, arith, codes, if◌then◌else◌, refl, sym, text_eq,
  text_eq_iff, true, ℕ, ◌==◌, ◌↔◌, ◌∙◌, ◌∷◌, ◌≡◌,
}

-- The keys of ORDER_STATUS; `other` is any other text.
pub data Status : Type 0 where
  placed payment_pending payment_verified confirmed packing_started packed : Status
  rider_assigned rider_accepted rider_rejected : Status
  out_for_delivery picked_up on_the_way rider_nearby : Status
  delivered failed_delivery cancelled refunded failed : Status
  other : Text → Status

abbrev pub tag : Status → ℕ
tag placed = 0
tag payment_pending = 1
tag payment_verified = 2
tag confirmed = 3
tag packing_started = 4
tag packed = 5
tag rider_assigned = 6
tag rider_accepted = 7
tag rider_rejected = 8
tag out_for_delivery = 9
tag picked_up = 10
tag on_the_way = 11
tag rider_nearby = 12
tag delivered = 13
tag failed_delivery = 14
tag cancelled = 15
tag refunded = 16
tag failed = 17
tag (other t) = 18

-- `===` on statuses.
abbrev pub status_eq : Status → Status → Bool
status_eq (other t) (other u) = text_eq t u
status_eq a b = tag a == tag b

-- `[...].includes(s)` and `new Set([...]).has(s)`.
abbrev pub includes : List Status → Status → Bool
includes l s = any (status_eq s) l

-- The value of each key of ORDER_STATUS.
abbrev pub to_text : Status → Text
to_text placed = codes "PLACED"
to_text payment_pending = codes "PAYMENT_PENDING"
to_text payment_verified = codes "PAYMENT_VERIFIED"
to_text confirmed = codes "CONFIRMED"
to_text packing_started = codes "PACKING_STARTED"
to_text packed = codes "PACKED"
to_text rider_assigned = codes "RIDER_ASSIGNED"
to_text rider_accepted = codes "RIDER_ACCEPTED"
to_text rider_rejected = codes "RIDER_REJECTED"
to_text out_for_delivery = codes "OUT_FOR_DELIVERY"
to_text picked_up = codes "PICKED_UP"
to_text on_the_way = codes "ON_THE_WAY"
to_text rider_nearby = codes "RIDER_NEARBY"
to_text delivered = codes "DELIVERED"
to_text failed_delivery = codes "FAILED_DELIVERY"
to_text cancelled = codes "CANCELLED"
to_text refunded = codes "REFUNDED"
to_text failed = codes "FAILED"
to_text (other t) = t

abbrev pub named : List Status
named =
    placed ∷ payment_pending ∷ payment_verified ∷ confirmed ∷ packing_started ∷ packed
    ∷ rider_assigned ∷ rider_accepted ∷ rider_rejected ∷ out_for_delivery ∷ picked_up ∷ on_the_way
    ∷ rider_nearby ∷ delivered ∷ failed_delivery ∷ cancelled ∷ refunded ∷ failed ∷ []

abbrev pub find_name : List Status → Text → Status
find_name [] t = other t
find_name (s ∷ l) t = let rest = find_name l t in if text_eq (to_text s) t then s else rest

-- The status that a text is.
unfoldable pub of_text : Text → Status
of_text = find_name named

pub to_text-find_name : (l : List Status) (t : Text) → to_text (find_name l t) ≡ t
to_text-find_name [] t = refl
to_text-find_name (s ∷ l) t = ground (arith, text_eq_iff (to_text s) t, to_text-find_name l t)

pub to_text-of_text : (t : Text) → to_text (of_text t) ≡ t
unfolding of_text
to_text-of_text t = to_text-find_name named t

tag_of : ℕ → Status
tag_of n =
    if n == 0
    then placed
    else if n == 1
    then payment_pending
    else if n == 2
    then payment_verified
    else if n == 3
    then confirmed
    else if n == 4
    then packing_started
    else if n == 5
    then packed
    else if n == 6
    then rider_assigned
    else if n == 7
    then rider_accepted
    else if n == 8
    then rider_rejected
    else if n == 9
    then out_for_delivery
    else if n == 10
    then picked_up
    else if n == 11
    then on_the_way
    else if n == 12
    then rider_nearby
    else if n == 13
    then delivered
    else if n == 14
    then failed_delivery
    else if n == 15
    then cancelled
    else if n == 16
    then refunded
    else failed

abbrev IsNamed : Status → Type 0
IsNamed (other t) = ⊥
IsNamed s = Unit

tag_of-tag : (s : Status) → IsNamed s → tag_of (tag s) ≡ s
unfolding tag_of
tag_of-tag (other t) h = absurd h
tag_of-tag placed h = refl
tag_of-tag _ h = refl

same_tag : (a b : Status) → IsNamed a → IsNamed b → tag a ≡ tag b → a ≡ b
same_tag a b ha hb e = sym (tag_of-tag a ha) ∙ ap tag_of e ∙ tag_of-tag b hb

status_eq_sound : (a b : Status) → status_eq a b ≡ true → a ≡ b
status_eq_sound (other t) (other u) h = ap other ((text_eq_iff t u).0 h)
status_eq_sound (other t) placed h = cc
status_eq_sound (other t) _ h = cc
status_eq_sound placed (other t) h = cc
status_eq_sound _ (other t) h = cc
status_eq_sound a b h = same_tag a b tt tt ((==_iff (tag a) (tag b)).0 h)

pub status_eq_refl : (a : Status) → status_eq a a ≡ true
status_eq_refl (other t) = (text_eq_iff t t).1 refl
status_eq_refl placed = refl
status_eq_refl _ = refl

pub status_eq_iff : (a b : Status) → (status_eq a b ≡ true) ↔ (a ≡ b)
status_eq_iff a b = (status_eq_sound a b, λ e. subst_status a b e)
  where
    subst_status : (x y : Status) → x ≡ y → status_eq x y ≡ true
    subst_status x y e = rw e (status_eq_refl y)
