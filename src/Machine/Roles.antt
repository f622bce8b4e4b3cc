-- ===== src/Machine/Roles.antt =====
-- The roles of backend/src/utils/enhancedOrderStateMachine.js (its actors) and of the users table;
-- `other` is any other text.
use meatvo_app.Base.{
  ==_iff, Bool, Text, ap, if◌then◌else◌, refl, sym, text_eq, text_eq_iff, true, ℕ, ◌==◌, ◌↔◌, ◌∙◌,
  ◌≡◌,
}

pub data Role : Type 0 where
  customer admin staff rider system delivery : Role
  other : Text → Role

abbrev role_tag : Role → ℕ
role_tag customer = 0
role_tag admin = 1
role_tag staff = 2
role_tag rider = 3
role_tag system = 4
role_tag delivery = 5
role_tag (other t) = 6

abbrev pub role_eq : Role → Role → Bool
role_eq (other t) (other u) = text_eq t u
role_eq a b = role_tag a == role_tag b

role_of_tag : ℕ → Role
role_of_tag n =
    if n == 0
    then customer
    else if n == 1
    then admin
    else if n == 2
    then staff
    else if n == 3
    then rider
    else if n == 4
    then system
    else delivery

abbrev IsNamed : Role → Type 0
IsNamed (other t) = ⊥
IsNamed s = Unit

role_of_tag-role_tag : (r : Role) → IsNamed r → role_of_tag (role_tag r) ≡ r
unfolding role_of_tag
role_of_tag-role_tag (other t) h = absurd h
role_of_tag-role_tag customer h = refl
role_of_tag-role_tag _ h = refl

same_role : (a b : Role) → IsNamed a → IsNamed b → role_tag a ≡ role_tag b → a ≡ b
same_role a b ha hb e =
    sym (role_of_tag-role_tag a ha) ∙ ap role_of_tag e ∙ role_of_tag-role_tag b hb

role_eq_sound : (a b : Role) → role_eq a b ≡ true → a ≡ b
role_eq_sound (other t) (other u) h = ap other ((text_eq_iff t u).0 h)
role_eq_sound (other t) customer h = cc
role_eq_sound (other t) _ h = cc
role_eq_sound customer (other t) h = cc
role_eq_sound _ (other t) h = cc
role_eq_sound a b h = same_role a b tt tt ((==_iff (role_tag a) (role_tag b)).0 h)

role_eq_refl : (a : Role) → role_eq a a ≡ true
role_eq_refl (other t) = (text_eq_iff t t).1 refl
role_eq_refl customer = refl
role_eq_refl _ = refl

pub role_eq_iff : (a b : Role) → (role_eq a b ≡ true) ↔ (a ≡ b)
role_eq_iff a b = (role_eq_sound a b, λ e. rw e (role_eq_refl b))
