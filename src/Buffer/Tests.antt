-- ===== src/Buffer/Tests.antt =====
-- The theorems on src/Memorys/Buffer.h at concrete buffers, and runs of the code.
use learning_network.Prelude.{◌≡◌, refl, [], ◌∷◌, ◌++◌, arith, ok, fault, failed_assert, some}
use learning_network.Buffer.{
  Buffer, append, read_fd, writable_bytes, readable_bytes, ensure_writable_bytes, add_cap, resize,
  write_at, bytes_at, got, has_written, read_capacity,
}
use learning_network.Buffer.Invariant.{IsValid, content}
use learning_network.Buffer.Append.{content-append}
use learning_network.Buffer.Read.{content-read_fd}
use learning_network.Buffer.Endian.{
  append_int, read_int, be_bytes, le_bytes, read_int-append_int, read_int-be_bytes,
  content-append_int,
}
use learning_network.Buffer.Search.{find_crlf, find_eol_from, find_eol_from_behind, find_pair}

-- Four bytes of storage; one byte was consumed, and "a\r" can be read.
abbrev small : Buffer
small = record { buf = 1 ∷ 97 ∷ 13 ∷ 0 ∷ []; read_idx = 1; write_idx = 3 }

small-IsValid : IsValid small
small-IsValid = omega arith

abbrev line : Buffer
line = record { buf = 97 ∷ 13 ∷ 10 ∷ 98 ∷ []; read_idx = 0; write_idx = 4 }

line-IsValid : IsValid line
line-IsValid = omega arith

content-append_example :
    (b' : Buffer) × (append small (10 ∷ 98 ∷ []) ≡ ok b')
    × IsValid b'
    × (content b' ≡ 97 ∷ 13 ∷ 10 ∷ 98 ∷ [])
content-append_example = content-append small (10 ∷ 98 ∷ []) small-IsValid (omega arith)

content-read_fd_example :
    (b' : Buffer) × (read_fd small (got (10 ∷ 98 ∷ [])) ≡ ok b')
    × IsValid b'
    × (content b' ≡ 97 ∷ 13 ∷ 10 ∷ 98 ∷ [])
unfolding read_capacity writable_bytes
content-read_fd_example =
    content-read_fd small (10 ∷ 98 ∷ []) small-IsValid (omega arith) (omega arith)

abbrev exhausted : Buffer
exhausted = record { buf = 0 ∷ []; read_idx = 1; write_idx = 1 }

exhausted-IsValid : IsValid exhausted
exhausted-IsValid = omega arith

read_int-append_int_example :
    (b' : Buffer) × (b'' : Buffer) × (append_int 4 exhausted 0x01020304 ≡ ok b')
    × (read_int 4 b' ≡ ok (0x01020304, b''))
    × (content b'' ≡ [])
read_int-append_int_example =
    read_int-append_int 4 exhausted 0x01020304 exhausted-IsValid refl (omega arith) (omega arith)

abbrev number : Buffer
number = record { buf = 1 ∷ 2 ∷ 9 ∷ []; read_idx = 0; write_idx = 3 }

read_int-be_bytes_example :
    (b' : Buffer) × (read_int 2 number ≡ ok (0x0102, b')) × IsValid b' × (content b' ≡ 9 ∷ [])
unfolding be_bytes le_bytes
read_int-be_bytes_example =
    read_int-be_bytes 2 number 0x0102 (9 ∷ []) (omega arith) (omega arith) refl

content-append_int_example :
    (b' : Buffer) × (append_int 2 small 0x0102 ≡ ok b')
    × IsValid b'
    × (content b' ≡ (97 ∷ 13 ∷ []) ++ be_bytes 2 0x0102)
content-append_int_example = content-append_int 2 small 0x0102 small-IsValid (omega arith)

find_eol_from_behind_example : find_eol_from line 3 ≡ fault failed_assert
find_eol_from_behind_example = find_eol_from_behind line 3 (omega arith)

find_crlf_runs : find_crlf line ≡ ok (some 1)
unfolding find_crlf find_pair bytes_at readable_bytes
find_crlf_runs = refl

append_grows :
    append small (7 ∷ 8 ∷ 9 ∷ [])
    ≡ ok (record { buf = 97 ∷ 13 ∷ 7 ∷ 8 ∷ 9 ∷ 0 ∷ []; read_idx = 0; write_idx = 5 })
unfolding append ensure_writable_bytes add_cap resize write_at bytes_at has_written writable_bytes
append_grows = refl
