-- ===== src/Witnesses/Pipes.antt =====
-- A request sent in short and interrupted writes, and read back in short reads.
use swaylock_plugin.Base.{◌≡◌, refl, [], ◌∷◌, ◌++◌, arith, replicate, true, false, returns}
use swaylock_plugin.Password.{clear_password_buffer}
use swaylock_plugin.Comm.{
  Writer, Reader, wrote, write_eintr, got, read_eintr, request, write_full, write_comm_request,
  read_comm_request, size_bytes, size_value,
}
use swaylock_plugin.Comm.Bytes.{size_value-size_bytes}
use swaylock_plugin.Comm.Pipe.{write_full_completes, Written}
use swaylock_plugin.Comm.Transfer.{message, write_comm_request_sends, read_comm_request_receives}
use swaylock_plugin.Witnesses.Text.{typed, typed-Holds}

abbrev writer : Writer
writer = record {
  script =
      write_eintr
      ∷ wrote 5
      ∷ wrote 1
      ∷ wrote 1
      ∷ wrote 1
      ∷ wrote 1
      ∷ wrote 1
      ∷ wrote 1
      ∷ wrote 1
      ∷ wrote 1
      ∷ wrote 1
      ∷ wrote 1
      ∷ [];
  pipe = [];
}

abbrev reader : Reader
reader = record {
  script =
      read_eintr
      ∷ got 4
      ∷ got 0
      ∷ got 0
      ∷ got 0
      ∷ got 0
      ∷ got 0
      ∷ got 0
      ∷ got 0
      ∷ got 0
      ∷ got 0
      ∷ got 0
      ∷ [];
  pipe = message (0xe9 ∷ []) ++ 9 ∷ [];
  closed = false;
}

abbrev short_reader : Reader
short_reader = record reader { pipe = 4 ∷ 5 ∷ 6 ∷ 7 ∷ [] }

write_comm_request_sends_example :
    (w' : Writer) × (write_comm_request writer typed
      ≡ returns (w', clear_password_buffer typed, true))
    × (w'.pipe ≡ [] ++ message (0xe9 ∷ []))
    × ((clear_password_buffer typed).buffer ≡ replicate 8 0)
write_comm_request_sends_example =
    write_comm_request_sends typed (0xe9 ∷ []) typed-Holds writer
      (
        tt,
        (
          omega arith,
          (
            omega arith,
            (
              omega arith,
              (
                omega arith,
                (
                  omega arith,
                  (
                    omega arith,
                    (omega arith, (omega arith, (omega arith, (omega arith, (omega arith, tt))))),
                  ),
                ),
              ),
            ),
          ),
        ),
      )
      (omega arith)

read_comm_request_receives_example :
    (r' : Reader) × (read_comm_request reader true ≡ returns (r', request (0xc3 ∷ 0xa9 ∷ 0 ∷ [])))
    × (r'.pipe ≡ 9 ∷ [])
read_comm_request_receives_example =
    read_comm_request_receives reader (0xe9 ∷ []) (9 ∷ []) refl (omega arith)
      (tt, (tt, (tt, (tt, (tt, (tt, (tt, (tt, (tt, (tt, (tt, (tt, tt)))))))))))) (omega arith)

write_full_completes_example :
    Written writer.script [] (1 ∷ 2 ∷ 3 ∷ []) (write_full writer (1 ∷ 2 ∷ 3 ∷ []))
write_full_completes_example =
    write_full_completes writer (1 ∷ 2 ∷ 3 ∷ [])
      (
        tt,
        (
          omega arith,
          (
            omega arith,
            (
              omega arith,
              (
                omega arith,
                (
                  omega arith,
                  (
                    omega arith,
                    (omega arith, (omega arith, (omega arith, (omega arith, (omega arith, tt))))),
                  ),
                ),
              ),
            ),
          ),
        ),
      )
      (omega arith)

size_value-size_bytes_example : size_value (size_bytes 8 1000) ≡ 1000
size_value-size_bytes_example = size_value-size_bytes 8 1000 (omega arith)
