-- ===== src/TestBed/Rounds.antt =====
-- A run of the test bed, by the connections that come to its socket.
use aosproject.Schedule.Write.{Config}
use aosproject.TestBed.Calls.{term_wait as wait_for_nodes}
