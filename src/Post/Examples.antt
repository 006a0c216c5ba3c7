-- ===== src/Post/Examples.antt =====
-- Two receivers, of which one waits on a pipe.
use muscle.Prelude.{
  ℕ, ◌≡◌, refl, List, [], ◌∷◌, ◌++◌, ok, some, none, pos, negsuc, list_eq, ◌==◌, if◌then◌else◌,
}
use muscle.Prelude.Dict.{lookup, insert, erase}
use muscle.Identity.{identifier, Reference, id_part, part_eq}
use muscle.Identity.Parse.{parts_to_string}
use muscle.Post.{
  ready, handle_request, get_next_message, PostOffice, Pipe, new_outbox, is_empty, put, retrieve,
  set_notification_fd, return_notification_fd, get_outbox, get_pipe, return_pipe, register, serve,
  get_response, deposit, int_eq,
}
use muscle.Post.Queue.{waiting}
use muscle.Post.Requests.{handle_request-parts_to_string}
use muscle.Post.Calls.{
  Call, deposits, requests, responds, step, run, given_to, deposited_for, queued,
}
use muscle.Post.Delivery.{Agree, run-given}

abbrev left : Reference
left = id_part (b'l' ∷ []) ∷ []

abbrev right : Reference
right = id_part (b'r' ∷ []) ∷ []

abbrev pipe : Pipe
pipe = record { sending_fd = pos 8; receiving_fd = pos 7 }

abbrev empty : PostOffice ℕ
empty = record { outboxes = []; pending_outboxes = []; pipes = [] }

abbrev calls : List (Call ℕ)
calls =
    requests left (some pipe)
    ∷ deposits right 1
    ∷ deposits left 2
    ∷ responds (pos 7)
    ∷ deposits left 3
    ∷ requests right none
    ∷ []

abbrev ended : PostOffice ℕ
ended = record {
  outboxes =
      (left, record { queue = 3 ∷ []; notification_fd = negsuc 0 })
      ∷ (right, record { queue = []; notification_fd = negsuc 0 })
      ∷ [];
  pending_outboxes = [];
  pipes = pipe ∷ [];
}

ran : run calls empty [] ≡ ok (ended, (pos 7, left) ∷ [], (left, 2) ∷ (right, 1) ∷ [])
unfolding run step deposit serve get_response lookup insert erase is_empty put retrieve register
    get_pipe return_pipe return_notification_fd set_notification_fd get_outbox new_outbox
ran = refl

none_waits : Agree empty []
unfolding lookup
none_waits fd r h = cc

run-given_example :
    given_to left ((left, 2) ∷ (right, 1) ∷ []) ++ queued ended left
    ≡ queued empty left ++ deposited_for left calls
run-given_example =
    run-given calls left empty ended [] ((pos 7, left) ∷ []) ((left, 2) ∷ (right, 1) ∷ [])
      none_waits ran

abbrev two_wait : PostOffice ℕ
two_wait = record {
  outboxes = (left, record { queue = 3 ∷ 2 ∷ []; notification_fd = negsuc 0 }) ∷ [];
  pending_outboxes = [];
  pipes = [];
}

in_order : queued two_wait left ≡ 2 ∷ 3 ∷ []
unfolding queued waiting get_outbox lookup
in_order = refl

handle_request-parts_to_string_example :
    (s' : PostOffice ℕ) × (handle_request (get_next_message (parts_to_string left)) none two_wait
      ≡ ok (ready 2, s'))
    × ((k : Reference) → queued s' k ≡ (if left == k then 3 ∷ [] else queued two_wait k))
unfolding identifier
handle_request-parts_to_string_example =
    handle_request-parts_to_string left none two_wait 2 (3 ∷ []) (refl, tt) in_order
