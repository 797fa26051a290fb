-- ===== src/RingBuffer/Tests.antt =====
-- Runs of the ring buffer, and its theorems at concrete buffers.
use system_agent.Prelude.{ℕ, List, [], ◌∷◌, ◌≡◌, refl, arith}
use system_agent.RingBuffer.{RingBuffer, new, push, get_all}
use system_agent.RingBuffer.Valid.{IsValid, push-IsValid}
use system_agent.RingBuffer.Window.{last, push_all, get_all-push_all}

-- Two places, of which both are taken.
abbrev full_buffer : RingBuffer ℕ
full_buffer = record { items = 4 ∷ 3 ∷ []; head = 1; size = 2 }

full_buffer-IsValid : IsValid full_buffer
full_buffer-IsValid = record {
  room = omega arith;
  head_in = omega arith;
  size_in = omega arith;
  filling = λ h. absurd (omega arith);
}

get_all_runs : get_all 0 full_buffer ≡ 3 ∷ 4 ∷ []
unfolding get_all
get_all_runs = refl

push-IsValid_example : IsValid (push full_buffer 5)
push-IsValid_example = push-IsValid full_buffer 5 full_buffer-IsValid

abbrev empty_buffer : RingBuffer ℕ
empty_buffer = record { items = 0 ∷ 0 ∷ []; head = 0; size = 0 }

abbrev pushed : List ℕ
pushed = 7 ∷ 8 ∷ 9 ∷ []

get_all-push_all_example : get_all 0 (push_all empty_buffer pushed) ≡ last 2 pushed
get_all-push_all_example = get_all-push_all 0 2 pushed empty_buffer (unfold new in refl)
