-- ===== src/Volume/Replica/Pulling.antt =====
-- What a follower that joins gets of the leader's journal.
