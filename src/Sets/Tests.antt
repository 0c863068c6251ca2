-- ===== src/Sets/Tests.antt =====
-- Runs of the operations of subscriber/helpers.go.
use klever_subscriber.Base.{◌≡◌, refl, String, List, [], ◌∷◌, string_eq}
use klever_subscriber.Sets.{merge, diff, merge_loop, keep_loop, set_keys}

abbrev held : List String
held = "blocks" ∷ "accounts" ∷ []

abbrev asked : List String
asked = "accounts" ∷ "transactions" ∷ "transactions" ∷ []

merge_run : merge held asked ≡ "blocks" ∷ "accounts" ∷ "transactions" ∷ []
unfolding merge merge_loop set_keys
merge_run = refl

diff_run : diff asked held ≡ "transactions" ∷ "transactions" ∷ []
unfolding diff keep_loop set_keys
diff_run = refl
