-- ===== src/Tests/Filters.antt =====
-- The message filter.
use grav.Common.{◌≡◌, refl, [], ◌∷◌, true, false, lookup, string_discrete}
use grav.Filter.{MessageFilter, allow}
use grav.Tests.Samples.{message}

abbrev picky : MessageFilter
picky = record {
  uuid_map = ("a", false) ∷ [];
  uuid_inclusive = true;
  type_map = ("grav.default", true) ∷ [];
  type_inclusive = false;
}

bounced : allow picky (message "a") ≡ false
unfolding allow lookup string_discrete
bounced = refl
