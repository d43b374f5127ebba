-- ===== src/Core/Jobs/Listing.antt =====
-- platform/controller-core/src/jobService.js: listCommands, asked with a limit and a cursor that are
-- natural numbers. Creation times are numbers; `precedes a b` is `a.localeCompare(b) < 0`. The sort,
-- which is stable, is an insertion sort; that `inputs` are left out of the answer is not modelled.
use web_action_recorder_exte.Common.{
  ℕ, ◌≤◌, ltb, Bool, true, ◌&&◌, ◌||◌, ◌==◌, not, String, Option, none, some, List, [], ◌∷◌, length,
  take, drop, truthy, get_or_else, keep_if, opt_eq, if◌then◌else◌, ◌≡◌, arith, zero, suc,
}
use web_action_recorder_exte.Core.Errors.{Result, ok, err, domain_error, invalid_target}
use web_action_recorder_exte.Core.State.{State, Command}
use web_action_recorder_exte.Core.State.{Status}
use web_action_recorder_exte.Core.Transitions.{status_eq}

pub record JobQuery : Type 0 where
  pub device_id : Option String
  pub status : Option Status
  pub limit : ℕ
  pub cursor : Option ℕ

abbrev pub has_status : Option Status → Command → Bool
has_status none c = true
has_status (some s) c = status_eq c.status s

abbrev pub is_asked_for : JobQuery → Command → Bool
is_asked_for q c =
    (not (truthy q.device_id) || opt_eq (some c.device_id) q.device_id) && has_status q.status c

module _ (precedes : String → String → Bool) where
  abbrev pub is_earlier : Command → Command → Bool
  is_earlier a b =
      ltb a.created_at b.created_at || (a.created_at == b.created_at && precedes a.id b.id)

  abbrev pub insert_command : Command → List Command → List Command
  insert_command x [] = x ∷ []
  insert_command x (y ∷ ys) =
      let rest = insert_command x ys in if is_earlier x y then x ∷ y ∷ ys else y ∷ rest

  abbrev pub sort_commands : List Command → List Command → List Command
  sort_commands sorted [] = sorted
  sort_commands sorted (x ∷ xs) = sort_commands (insert_command x sorted) xs

  -- `listCommands`
  unfoldable pub list_commands : JobQuery → State → Result (List Command)
  list_commands q s =
      if ltb q.limit 1 || ltb 200 q.limit
      then err (domain_error invalid_target)
      else ok (
          take q.limit (
            drop (get_or_else q.cursor 0) (sort_commands [] (keep_if (is_asked_for q) s.commands))))

  length-take : (n : ℕ) (xs : List Command) → length (take n xs) ≤ n
  length-take zero xs = omega arith
  length-take (suc n) [] = omega arith
  length-take (suc n) (x ∷ xs) = omega (arith, length-take n xs)

  -- A page never has more commands than the limit that was asked for, and that is 200 at most.
  pub list_commands-le-limit :
      (q : JobQuery) (s : State) (page : List Command)
      → list_commands q s ≡ ok page
      → (length page ≤ q.limit) × (q.limit ≤ 200)
  unfolding list_commands
  list_commands-le-limit q s page h = ground (
    arith,
    length-take q.limit
        (drop (get_or_else q.cursor 0) (sort_commands [] (keep_if (is_asked_for q) s.commands))),
  )
