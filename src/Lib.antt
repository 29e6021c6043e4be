-- ===== src/Lib.antt =====
-- Portrait Booth: the browser application that makes ID photos, frontend/src.
--
-- The user chooses a template, takes or uploads a photo, crops it and renders the final picture.
-- frontend/src/create/create-page.tsx holds the state of this flow; it carries the editor state
-- over to another template with frontend/src/editor/edit-transform.ts.
-- frontend/src/image/header.ts reads the size and the orientation of a file,
-- frontend/src/image/exif.ts turns the orientation into a matrix,
-- frontend/src/render/final-artifact.ts draws and compresses the result and
-- frontend/src/render/jpeg.ts puts its density into the file. frontend/src/pose/tracking.ts guides
-- the user in front of the camera, and frontend/src/lib/templates says what a template permits.
--
-- Files:
--   Base, Bytes        shared names: tests, lists, loops on fuel, integers, reads from a file's bytes
--   Number             the JavaScript numbers as an interface; Number.Whole is one to run examples on
--   Template           frontend/src/lib/templates/types.ts
--   Template.Policy    frontend/src/lib/templates/policy.ts (editorPolicy, capabilityRestrictions)
--   Template.Catalog   frontend/src/lib/templates/catalog.ts (fetchTemplateCatalog, filterTemplates)
--   Template.Names     the names and labels of catalog.ts; describe.ts and disclosure.ts beside it
--   Image              frontend/src/image/header.ts: Tiff (parseTiffOrientation), JpegFile
--                      (parseJpeg), PngFile (parsePng), WebpFile (parseWebp), Header
--                      (parseImageHeader)
--   Image.Exif         frontend/src/image/exif.ts
--   Image.Source       frontend/src/image/source.ts
--   Editor             frontend/src/editor/edit-transform.ts: OutputSize (outputSize,
--                      allowedOutputSizes, resolveOutputSize), Transform (renderMatrix, invert,
--                      isValidTransform), Fit (clampTranslation, minScaleForRotation,
--                      fitTransform), Reproject (reprojectEditorState)
--   Editor.Overlay     frontend/src/editor/overlay.ts
--   Editor.Step        frontend/src/editor/editor-step.tsx: `EditorView` is the state, Controls has
--                      the buttons, keys and pointers with `step`; Closed and Everywhere carry a
--                      statement through every event
--   Create             frontend/src/create/create-page.tsx: `Page` is the state, `Event` the
--                      callbacks, `act` what each does, `step_page` an event: a control of the step that is
--                      shown, or the answer of an upload, which may come when its step has gone
--   Create.Capture     frontend/src/create/capture-step.tsx: the camera step, with a list of what
--                      waits; `capture_step` ends one wait, whichever
--   Render             frontend/src/render/final-artifact.ts: Quality (searchQuality), Artifact
--                      (renderFinalArtifact)
--   Render.Geometry    frontend/src/render/geometry-checks.ts, frontend/src/render/check-types.ts
--   Render.Checks      frontend/src/render/checks.ts
--   Render.Staging     frontend/src/render/staging-panel.tsx, frontend/src/api/error-text.ts
--   Retrieve           frontend/src/pages/retrieve-page.tsx
--   Jpeg               frontend/src/render/jpeg.ts
--   Key                frontend/src/lib/key.ts
--   Pose               frontend/src/pose/angles.ts (Angles), frontend/src/pose/tracking.ts
--                      (Tracking, Tracker), frontend/src/pose/guidance-text.ts (GuidanceText),
--                      frontend/src/pose/face-geometry.ts (FaceGeometry),
--                      frontend/src/pose/quality.ts (Quality), frontend/src/pose/static-check.ts
--                      (StaticCheck)
--   Samples            data for the Tests modules
--
-- Doubles: an interface `Number` of operations without laws, so that what is shown holds for IEEE
-- arithmetic; a law that a theorem needs is one of its hypotheses. Bytes are natural numbers, and
-- the 32-bit reads of frontend/src/image/header.ts wrap to signed integers as JavaScript's do.
--
-- Exceptions are values: `none` of the editor's functions is the exception of `invert`, a
-- `Rendered` is a result or a `RenderError`. An exception in a callback of the page keeps the
-- state changes made before it.
--
-- Fuel: the loops over a file run on fuel. In frontend/src/render/jpeg.ts it is one more than the
-- file's length, and each round goes on by four bytes at least; in frontend/src/image/header.ts it
-- is an argument, as not every loop ends. The searches of the editor and of the quality run their
-- fixed numbers of rounds, 24, 30 and 10.
--
-- The canvas, its context and the encoder are fields of `RenderDeps`, since they are the
-- browser's.
--
-- Events of the editor are handled one after another, each when the state of the one before is
-- settled. Whether the transform shown is the very object IDENTITY_TRANSFORM, which is what the reset
-- compares, is left open: it is an argument of the event.
--
-- Bitmaps and object URLs of `Image.Source` are numbered handles in the order they are made.
--
-- The server of `Render.Staging` is a parameter with a state of its own, and `IsIdempotent` is what it
-- says of its idempotency keys. In `Retrieve` the answers of the server are events, in any order.
--
-- Not modelled: the server (backend), the other React views, the camera, the face landmarker, the
-- decoder of photos and the calls of the server, which are parameters where a part uses them; the
-- texts "detail" of the final checks, which put measured numbers into words.
pub mod Base
pub mod Bytes
pub mod Create
pub mod Image
pub mod Jpeg
pub mod Editor
pub mod Key
pub mod Number
pub mod Pose
pub mod Render
pub mod Retrieve
pub mod Samples
pub mod Template
