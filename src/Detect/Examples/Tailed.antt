-- ===== src/Detect/Examples/Tailed.antt =====
-- A session of detect/livetail.py over one log.
use eight_call.Prelude.{ℕ, ◌≤◌, ◌≡◌, refl, List, [], ◌∷◌, ◌++◌, some, length, take, drop, slice}
use eight_call.Broker.Registry.Params.{codes}
use eight_call.Detect.AuthzGate.Match.{starts_with}
use eight_call.Detect.Examples.Redacted.{scanner, hashes, writer, fresh, line}
use eight_call.Detect.Redact.{Text}
use eight_call.Detect.LiveTail.{
  Source, Session, Observed, Reader, Round, Budgets, idle, ended, line as tail_line, new_session,
  feed_all, feed, feed_text, feed_attributed, feed_content, emit_line, follow_loop, strip_newlines,
  ends_with, label_of, path_of, label_in,
}
use eight_call.Detect.LiveTail.Safe.{IsFed, IsExtended, feed_all-IsExtended}
use eight_call.Detect.LiveTail.Budget.{follow-bounded}

abbrev reader : Reader
reader = record { scanner = scanner; hashes = hashes; writer = writer }

abbrev sources : List Source
sources = record { label = codes "app"; path = codes "/var/log/app.log" } ∷ []

abbrev output : List (ℕ × Text)
output =
    (1, codes "==> /var/log/app.log <==\n")
    ∷ (2, line ++ 10 ∷ [])
    ∷ (3, codes "==> shadow <==\n")
    ∷ (4, codes "done\n")
    ∷ []

abbrev session : Session
session = new_session sources (some fresh) "t1"

abbrev names : List Observed → List Text
names [] = []
names (o ∷ os) = o.source ∷ names os

-- A line of the log that looks like a header of tail is taken for one: what follows is told of a
-- source that the allowlist does not have.
spoofed : names (feed_all reader output session).records ≡ codes "shadow" ∷ codes "app" ∷ []
unfolding feed_all feed feed_text feed_attributed feed_content emit_line strip_newlines ends_with
    starts_with label_of path_of label_in codes slice take drop new_session
spoofed = refl

feed_all-IsExtended_example :
    IsExtended reader (IsFed output) session (feed_all reader output session)
feed_all-IsExtended_example = feed_all-IsExtended reader output session

abbrev budgets : Budgets
budgets = record { max_lines = 2; max_chars = 1000 }

abbrev rounds : List Round
rounds =
    tail_line 1 (codes "==> /var/log/app.log <==\n")
    ∷ idle
    ∷ tail_line 2 line
    ∷ tail_line 3 line
    ∷ ended
    ∷ []

follow-bounded_example :
    let (s', n) = follow_loop reader budgets rounds 0 0 (new_session sources (some fresh) "t1") in
    (n ≤ budgets.max_lines) × (length s'.records ≤ n)
follow-bounded_example = follow-bounded reader budgets rounds sources (some fresh) "t1"
