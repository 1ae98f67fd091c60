-- ===== src/Session/Compactor/Tests.antt =====
-- Tests of the extractive compactor, and its theorems on concrete texts.
use git_client.Prelude.{◌≡◌, refl, [], ◌∷◌, some, codes}
use git_client.Session.{user, SessionMessage}
use git_client.Session.Compactor.{truncate_utf8_suffix, compact}
use git_client.Session.Compactor.Truncation.{suffix_within, truncate_utf8_suffix_lem}
use git_client.Session.Compactor.Extractive.{extractive, IsBounded, extractive_bounds}

-- Four bytes take the last character and not the one before it.
truncate_utf8_suffix_example :
    truncate_utf8_suffix (codes "aé提") 4 ≡ some (suffix_within (codes "aé提") 4)
truncate_utf8_suffix_example = truncate_utf8_suffix_lem (codes "aé提") 4

cut : suffix_within (codes "aé提") 4 ≡ codes "提"
cut = refl

abbrev hello : SessionMessage
hello = record { role = user; content = codes "  hello \n world " }

extractive_bounds_example :
    (compact (some (codes "old")) (hello ∷ []) 8
      ≡ some (extractive (some (codes "old")) (hello ∷ []) 8))
    × IsBounded (hello ∷ []) 8 (extractive (some (codes "old")) (hello ∷ []) 8)
extractive_bounds_example = extractive_bounds (some (codes "old")) (hello ∷ []) 8
