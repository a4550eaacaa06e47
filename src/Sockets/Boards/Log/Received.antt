-- ===== src/Sockets/Boards/Log/Received.antt =====
-- What the sockets of a board received, and what waits for it.
use intelli_attend_smart_boa.Base.{
  ℕ, String, ◌≡◌, refl, ap, Bool, true, false, Option, none, some, List, [], ◌∷◌, ◌++◌, map, keep,
  same, arith, if◌then◌else◌, append_assoc, append-nil,
}
use intelli_attend_smart_boa.Dict.{lookup}
use intelli_attend_smart_boa.Json.{Json}
use intelli_attend_smart_boa.Sockets.Boards.{Boards}
use intelli_attend_smart_boa.Sockets.Boards.Laws.{waiting}

-- An admin sends a command to a board, a board's socket is opened, or a handler of one ends.
pub data Event : Type 0 where
  sends : (board : String) (command : Json) → Event
  connects : (board : String) (ws : ℕ) → Event
  disconnects : (board : String) → Event

-- The commands that are sent to a board, in order.
abbrev pub requested : String → List Event → List Json
requested board [] = []
requested board (sends b c ∷ events) =
    if same b board then c ∷ requested board events else requested board events
requested board (connects b ws ∷ events) = requested board events
requested board (disconnects b ∷ events) = requested board events

-- A socket is opened for its owner only.
abbrev pub IsOwned : (ℕ → String) → List Event → Type 0
IsOwned owner [] = Unit
IsOwned owner (connects b ws ∷ events) = (owner ws ≡ b) × IsOwned owner events
IsOwned owner (sends b c ∷ events) = IsOwned owner events
IsOwned owner (disconnects b ∷ events) = IsOwned owner events

-- What the sockets of a board received, in order.
abbrev pub received_from : (ℕ → String) → String → List (ℕ × Json) → List Json
received_from owner board [] = []
received_from owner board ((ws, c) ∷ done) =
    if same (owner ws) board
    then c ∷ received_from owner board done
    else received_from owner board done

abbrev pub received : (ℕ → String) → String → Boards → List Json
received owner board s = received_from owner board s.delivered

-- What was received and what waits.
abbrev pub log : (ℕ → String) → String → Boards → List Json
log owner board s = received owner board s ++ waiting board s

-- The board of a connected socket is its owner, and nothing waits for it.
abbrev pub IsFlushed : (ℕ → String) → Boards → Type 0
IsFlushed owner s =
    (board : String) (ws : ℕ)
    → lookup board s.connections ≡ some ws
    → (owner ws ≡ board) × (waiting board s ≡ [])

pub received_from-append :
    (owner : ℕ → String) (board : String) (done more : List (ℕ × Json))
    → received_from owner board (done ++ more)
      ≡ received_from owner board done ++ received_from owner board more
received_from-append owner board [] more = refl
received_from-append owner board ((ws, c) ∷ done) more =
    ground (arith, received_from-append owner board done more)

pub received_from-queue :
    (owner : ℕ → String) (board : String) (ws : ℕ) (cs : List Json)
    → received_from owner board (map (λ c. (ws, c)) cs) ≡ (if same (owner ws) board then cs else [])
received_from-queue owner board ws [] = ground arith
received_from-queue owner board ws (c ∷ cs) = ground (arith, received_from-queue owner board ws cs)

pub keep_every : (p : Json → Bool) (cs : List Json) → ((c : Json) → p c ≡ true) → keep p cs ≡ cs
keep_every p [] h = refl
keep_every p (c ∷ cs) h = ground (arith, h c, keep_every p cs h)

pub append-if :
    (b : Bool) (c : Json) (xs ys : List Json)
    → xs ++ (if b then c ∷ [] else []) ++ ys ≡ xs ++ (if b then c ∷ ys else ys)
append-if true c xs ys = append_assoc xs (c ∷ []) ys
append-if false c xs ys = ap (λ zs. zs ++ ys) (append-nil xs)

-- A board with a connection has nothing that waits.
abbrev pub IsCaughtUp : Option ℕ → List Json → Type 0
IsCaughtUp none queue = Unit
IsCaughtUp (some ws) queue = queue ≡ []
